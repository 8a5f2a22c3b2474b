-- ===== src/Book/SeatTable.antt =====
-- `claim_seat` and `check_seat`.
use solana_orderbook.Base.{ℕ, zero, suc, ◌+◌, not, Option, none, some, ◌==◌, leb, if◌then◌else◌}
use solana_orderbook.Exec.{pure, fail, gets, ◌>>=◌, ◌>>◌}
use solana_orderbook.Exec.Errors.{seat_table_full, invalid_seat_index, invalid_seat_owner}
use solana_orderbook.State.Constants.{nil, max_seats}
use solana_orderbook.State.Seats.{Seat, is_free}
use solana_orderbook.Book.{M, seat_at, edit_seat}

-- The first free slot among the `rounds` from `i`.
unfoldable pub first_free : ℕ → ℕ → (ℕ → Seat) → Option ℕ
first_free zero i seats = none
first_free (suc rounds) i seats =
    if is_free (seats i) then some i else first_free rounds (i + 1) seats

unfoldable pub grant : ℕ → Seat → Seat
grant owner s = record s { owner = owner; orders_head = nil }

unfoldable pub grant_at : ℕ → Option ℕ → M ℕ
grant_at owner none = fail seat_table_full
grant_at owner (some i) = do edit_seat i (grant owner); pure i

unfoldable pub claim_seat : ℕ → M ℕ
unfolding first_free
claim_seat owner = do found ← gets λ b. first_free max_seats 0 b.seats; grant_at owner found

unfoldable pub check_seat : ℕ → ℕ → M (Unit {0})
check_seat seat owner =
    if leb max_seats seat
    then fail invalid_seat_index
    else do s ← seat_at seat; if not (s.owner == owner) then fail invalid_seat_owner else pure tt
