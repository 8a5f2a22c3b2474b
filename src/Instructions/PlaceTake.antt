-- ===== src/Instructions/PlaceTake.antt =====
-- program/src/taker/place_take.rs.
use solana_orderbook.Base.{ℕ, ◌-◌, List, ltb, if◌then◌else◌, u64_max, add64, sub64}
use solana_orderbook.Base.Bytes.{u8_at, u16_at, u32_at, u64_at}
use solana_orderbook.Exec.{Result, ok, err, gets, ◌>>=◌, ◌>>◌, continue_with}
use solana_orderbook.Exec.Errors.{clob, insufficient_balance, slippage_exceeded}
use solana_orderbook.State.{Side, bid, ask, try_from_u8, from_flags, TakeResult}
use solana_orderbook.State.Header.{base_atoms}
use solana_orderbook.State.Seats.{Seat}
use solana_orderbook.Book.{M, settle_seat}
use solana_orderbook.Book.Take.{take}
use solana_orderbook.Book.SeatTable.{check_seat}
use solana_orderbook.Runtime.Accounts.{AccountInfo, ProgramIds}
use solana_orderbook.Instructions.{exactly, bump, by_owner}

pub record PlaceTakeInstructionData : Type 0 where
  pub seat_index : ℕ
  pub side : Side
  pub limit_tick : ℕ
  pub max_lots : ℕ
  pub min_out : ℕ
  pub flags : ℕ

unfoldable pub try_from : List ℕ → Result PlaceTakeInstructionData
try_from bytes = exactly 20 bytes (
    continue_with (try_from_u8 (u8_at 2 bytes)) λ side. ok (record {
      seat_index = u16_at 0 bytes;
      side = side;
      limit_tick = u32_at 3 bytes;
      max_lots = u32_at 7 bytes;
      min_out = u64_at 11 bytes;
      flags = u8_at 19 bytes;
    }))

-- The taker's side of the trade, for at least `min_out`.
unfoldable pub settle_taker : Side → ℕ → ℕ → TakeResult → Seat → Result Seat
settle_taker bid min_out base res s =
    let cost = add64 res.quote res.fee in
    if ltb base min_out
    then err (clob slippage_exceeded)
    else (if ltb s.quote_free cost
        then err (clob insufficient_balance)
        else ok (record s { quote_free = s.quote_free - cost; base_free = add64 s.base_free base }))
settle_taker ask min_out base res s =
    let out = sub64 res.quote res.fee in
    if ltb out min_out
    then err (clob slippage_exceeded)
    else (if ltb s.base_free base
        then err (clob insufficient_balance)
        else ok (record s { base_free = s.base_free - base; quote_free = add64 s.quote_free out }))

-- Match, and settle the taker's seat.
unfoldable pub trade : ℕ → ℕ → PlaceTakeInstructionData → M (Unit {0})
trade budget slot d = do
  res ← take budget (record {
    side = d.side;
    limit_tick = d.limit_tick;
    max_lots = d.max_lots;
    max_quote = u64_max;
    seat = d.seat_index;
    slot = slot;
    self_trade = from_flags d.flags;
  })
  h ← gets λ b. b.header
  settle_seat d.seat_index (settle_taker d.side d.min_out (base_atoms h res.lots) res)
  bump

unfoldable pub process : ℕ → ℕ → ℕ → PlaceTakeInstructionData → M (Unit {0})
unfolding trade
process budget slot owner d = do check_seat d.seat_index owner; trade budget slot d

-- The accounts and the data are read, and the instruction processed.
abbrev pub run : (budget slot : ℕ) → ProgramIds → List AccountInfo → List ℕ → M (Unit {0})
run budget slot = by_owner try_from (process budget slot)
