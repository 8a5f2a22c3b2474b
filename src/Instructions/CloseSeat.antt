-- ===== src/Instructions/CloseSeat.antt =====
-- program/src/seat/close_seat.rs.
use solana_orderbook.Base.{ℕ, List, not, ◌||◌, ◌==◌, if◌then◌else◌}
use solana_orderbook.Base.Bytes.{u16_at}
use solana_orderbook.Exec.{Result, ok, err, ◌>>◌}
use solana_orderbook.Exec.Errors.{clob, seat_not_empty}
use solana_orderbook.State.Constants.{nil}
use solana_orderbook.State.Seats.{Seat}
use solana_orderbook.Book.{M, settle_seat}
use solana_orderbook.Book.SeatTable.{check_seat}
use solana_orderbook.Runtime.Accounts.{AccountInfo, ProgramIds}
use solana_orderbook.Instructions.{exactly, bump, by_owner}

unfoldable pub try_from : List ℕ → Result ℕ
try_from bytes = exactly 2 bytes (ok (u16_at 0 bytes))

unfoldable pub vacate_seat : Seat → Result Seat
vacate_seat s =
    if not (s.base_free == 0)
      || (not (s.quote_free == 0)
          || (not (s.base_locked == 0) || (not (s.quote_locked == 0) || not (s.order_count == 0))))
    then err (clob seat_not_empty)
    else ok (record s { owner = 0; orders_head = nil })

unfoldable pub process : ℕ → ℕ → M (Unit {0})
process owner seat_index = do check_seat seat_index owner; settle_seat seat_index vacate_seat; bump

-- The accounts and the data are read, and the instruction processed.
abbrev pub run : ProgramIds → List AccountInfo → List ℕ → M (Unit {0})
run = by_owner try_from (process)
