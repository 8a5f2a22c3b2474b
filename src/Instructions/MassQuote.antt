-- ===== src/Instructions/MassQuote.antt =====
-- program/src/maker/mass_quote.rs.
use solana_orderbook.Base.{ℕ, ◌+◌, ◌*◌, ◌-◌, List, not, ◌==◌, ltb, if◌then◌else◌}
use solana_orderbook.Base.Bytes.{length, take, drop, u8_at, u16_at, u32_at}
use solana_orderbook.Exec.{Result, ok, err, pure, fail, ◌>>=◌, ◌>>◌}
use solana_orderbook.Exec.Errors.{error, invalid_instruction_data, too_many_orders}
use solana_orderbook.State.{bid, ask}
use solana_orderbook.State.Constants.{nil, max_orders_per_seat}
use solana_orderbook.Book.{M, seat_at}
use solana_orderbook.Book.MassQuote.{quote_len, mass_quote_side}
use solana_orderbook.Book.SeatTable.{check_seat}
use solana_orderbook.Runtime.Accounts.{AccountInfo, ProgramIds}
use solana_orderbook.Instructions.{bump, by_owner}

pub record MassQuoteInstructionData : Type 0 where
  pub seat_index : ℕ
  pub expiry_slot : ℕ
  pub bid_count : ℕ
  pub ask_count : ℕ
  pub bids : List ℕ
  pub asks : List ℕ

-- Where the length of the ask payload stands.
unfoldable pub asks_len_at : List ℕ → ℕ
asks_len_at bytes = 7 + u8_at 6 bytes * quote_len

unfoldable pub asks_start : List ℕ → ℕ
unfolding asks_len_at
asks_start bytes = asks_len_at bytes + 1

unfoldable pub try_from : List ℕ → Result MassQuoteInstructionData
unfolding asks_len_at asks_start
try_from bytes =
    if ltb (length bytes) 8
    then err (error invalid_instruction_data)
    else (if ltb (length bytes) (asks_len_at bytes + 1)
        then err (error invalid_instruction_data)
        else (if not
              (length bytes == (asks_start bytes + u8_at (asks_len_at bytes) bytes * quote_len))
            then err (error invalid_instruction_data)
            else ok (record {
              seat_index = u16_at 0 bytes;
              expiry_slot = u32_at 2 bytes;
              bid_count = u8_at 6 bytes;
              ask_count = u8_at (asks_len_at bytes) bytes;
              bids = take (asks_len_at bytes - 7) (drop 7 bytes);
              asks = drop (asks_start bytes) bytes;
            })))

unfoldable pub process : ℕ → ℕ → MassQuoteInstructionData → M (Unit {0})
process budget owner d = do
  check_seat d.seat_index owner
  if ltb max_orders_per_seat (d.bid_count + d.ask_count) then fail too_many_orders else pure tt
  seat ← seat_at d.seat_index
  cursor ←
      mass_quote_side budget d.seat_index bid d.bids d.bid_count d.expiry_slot
        (nil, seat.orders_head)
  mass_quote_side budget d.seat_index ask d.asks d.ask_count d.expiry_slot cursor
  bump

-- The accounts and the data are read, and the instruction processed.
abbrev pub run : (budget : ℕ) → ProgramIds → List AccountInfo → List ℕ → M (Unit {0})
run budget = by_owner try_from (process budget)
