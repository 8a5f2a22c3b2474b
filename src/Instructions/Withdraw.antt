-- ===== src/Instructions/Withdraw.antt =====
-- program/src/seat/withdraw.rs.
use solana_orderbook.Base.{ℕ, ◌-◌, List, ◌==◌, ltb, ◌||◌, if◌then◌else◌, u64_max}
use solana_orderbook.Base.Bytes.{u16_at, u64_at}
use solana_orderbook.Exec.{Exec, Result, ok, err, gets, ◌>>=◌, ◌>>◌}
use solana_orderbook.Exec.Errors.{clob, insufficient_balance}
use solana_orderbook.State.Seats.{Seat}
use solana_orderbook.Book.{seat_at, settle_seat}
use solana_orderbook.Book.SeatTable.{check_seat}
use solana_orderbook.Runtime.{TokenProgram, World, on_book}
use solana_orderbook.Instructions.{exactly, bump}
use solana_orderbook.Instructions.VaultAccounts.{VaultAccounts, base_out, quote_out, push}

pub record WithdrawInstructionData : Type 0 where
  pub seat_index : ℕ
  pub base_atoms : ℕ
  pub quote_atoms : ℕ

unfoldable pub try_from : List ℕ → Result WithdrawInstructionData
try_from bytes = exactly 18 bytes (
    ok record {
      seat_index = u16_at 0 bytes;
      base_atoms = u64_at 2 bytes;
      quote_atoms = u64_at 10 bytes;
    })

-- `u64::MAX` asks for the whole free balance.
unfoldable pub asked : ℕ → ℕ → ℕ
asked atoms free = if atoms == u64_max then free else atoms

unfoldable pub debit : ℕ → ℕ → Seat → Result Seat
debit base quote s =
    if ltb s.base_free base || ltb s.quote_free quote
    then err (clob insufficient_balance)
    else ok (record s { base_free = s.base_free - base; quote_free = s.quote_free - quote })

unfoldable pub process :
    (T : TokenProgram) → VaultAccounts → WithdrawInstructionData → Exec (World T) (Unit {0})
process T a d = do
  on_book T (check_seat d.seat_index a.owner)
  seat ← on_book T (seat_at d.seat_index)
  on_book T (
      settle_seat d.seat_index
        (debit (asked d.base_atoms seat.base_free) (asked d.quote_atoms seat.quote_free)))
  on_book T bump
  h ← gets λ w. w.book.header
  push T (base_out h a (asked d.base_atoms seat.base_free))
  push T (quote_out h a (asked d.quote_atoms seat.quote_free))
