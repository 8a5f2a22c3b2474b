-- ===== src/Ledger.antt =====
-- The settlement layer as a ledger: what the program owes, over all seats.
pub mod Conserves
pub mod Operations
pub mod Separate
pub mod Settle
pub mod Matching
pub mod Accounting
pub mod Walk
pub mod Taking
use solana_orderbook.Base.{ℕ, ◌+◌, ◌≤◌, ◌<◌, ◌≡◌, arith, sum_below, sum_below-update, sum_below-ge}
use solana_orderbook.State.Seats.{Seat}
use solana_orderbook.Book.{Book, with_seat}

abbrev pub base_of : Seat → ℕ
base_of s = s.base_free + s.base_locked

abbrev pub quote_of : Seat → ℕ
quote_of s = s.quote_free + s.quote_locked

unfoldable pub total_base : Book → ℕ
total_base b = sum_below 128 λ i. base_of (b.seats i)

unfoldable pub total_quote : Book → ℕ
total_quote b = sum_below 128 λ i. quote_of (b.seats i)

-- A write to one seat changes each total by the difference of that seat.
module _ (i : ℕ) (s : Seat) (b : Book) (small : i < 128) where
  pub total_base-with_seat :
      total_base (with_seat i s b) + base_of (b.seats i) ≡ total_base b + base_of s
  unfolding total_base with_seat
  total_base-with_seat = sum_below-update (λ s. base_of s) 128 b.seats i s small

  pub total_quote-with_seat :
      total_quote (with_seat i s b) + quote_of (b.seats i) ≡ total_quote b + quote_of s
  unfolding total_quote with_seat
  total_quote-with_seat = sum_below-update (λ s. quote_of s) 128 b.seats i s small

module _ (i : ℕ) (b : Book) (small : i < 128) where
  pub total_base-ge : base_of (b.seats i) ≤ total_base b
  unfolding total_base
  total_base-ge = sum_below-ge 128 (λ j. base_of (b.seats j)) i small

  pub total_quote-ge : quote_of (b.seats i) ≤ total_quote b
  unfolding total_quote
  total_quote-ge = sum_below-ge 128 (λ j. quote_of (b.seats j)) i small
