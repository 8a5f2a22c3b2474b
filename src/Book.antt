-- ===== src/Book.antt =====
-- `BookRefMut` of program/src/state.rs: the typed view of a market account. The pool is a slice of
-- `order_pool_capacity` nodes and the seat table one of 128 seats: an index past the end panics. A
-- level index is always masked to the 8,192 levels.
pub mod Pool
pub mod Fifo
pub mod Chain
pub mod Orders
pub mod Take
pub mod MassQuote
pub mod Hygiene
pub mod SeatTable
pub mod Frame
pub mod Index
pub mod Occupancy
pub mod Sparing
pub mod Vacating
pub mod Crossing
pub mod Identity
pub mod Anchors
pub mod Claims
use solana_orderbook.Base.{ℕ, ◌%◌, Bool, true, false, Option, ltb, if◌then◌else◌, update}
use solana_orderbook.Exec.{Exec, Result, ok, err, pure, raise, gets, lift, modify, ◌>>=◌, ◌>>◌}
use solana_orderbook.Exec.Errors.{panicked}
use solana_orderbook.State.Constants.{window_ticks, max_seats}
use solana_orderbook.State.{Side, bid, ask}
use solana_orderbook.State.Header.{Market, notional, base_atoms}
use solana_orderbook.State.Nodes.{Level, OrderNode}
use solana_orderbook.State.Seats.{Seat}
use solana_orderbook.Bitmap.{Bitmap, get, lowest, highest}

pub record Book : Type 0 where
  pub header : Market
  pub bid_bitmap : Bitmap
  pub ask_bitmap : Bitmap
  pub levels : ℕ → Level
  pub seats : ℕ → Seat
  pub pool : ℕ → OrderNode

abbrev pub M : Type 0 → Type 0
M A = Exec Book A

-- The field writes.
unfoldable pub with_header : (Market → Market) → Book → Book
with_header f b = record b { header = f b.header }

unfoldable pub with_pool : ℕ → OrderNode → Book → Book
with_pool i n b = record b { pool = update b.pool i n }

unfoldable pub with_level : ℕ → Level → Book → Book
with_level i l b = record b { levels = update b.levels i l }

unfoldable pub with_seat : ℕ → Seat → Book → Book
with_seat i s b = record b { seats = update b.seats i s }

unfoldable pub with_bitmap : Side → (Bitmap → Bitmap) → Book → Book
with_bitmap bid f b = record b { bid_bitmap = f b.bid_bitmap }
with_bitmap ask f b = record b { ask_bitmap = f b.ask_bitmap }

-- `self.pool[idx as usize]`, read and written.
unfoldable pub node_at : ℕ → M OrderNode
node_at i = do
  n ← gets λ b. b.header.order_pool_capacity
  if ltb i n then gets (λ b. b.pool i) else raise panicked

unfoldable pub put_node : ℕ → OrderNode → M (Unit {0})
put_node i node = do
  n ← gets λ b. b.header.order_pool_capacity
  if ltb i n then modify (with_pool i node) else raise panicked

unfoldable pub edit_node : ℕ → (OrderNode → OrderNode) → M (Unit {0})
unfolding node_at put_node
edit_node i f = do n ← node_at i; put_node i (f n)

-- `self.seats[i]`.
unfoldable pub seat_at : ℕ → M Seat
seat_at i = if ltb i max_seats then gets (λ b. b.seats i) else raise panicked

unfoldable pub put_seat : ℕ → Seat → M (Unit {0})
put_seat i s = if ltb i max_seats then modify (with_seat i s) else raise panicked

-- A change of the seat's chain fields.
unfoldable pub edit_seat : ℕ → (Seat → Seat) → M (Unit {0})
unfolding seat_at put_seat
edit_seat i f = do s ← seat_at i; put_seat i (f s)

-- A fallible change of the seat's balances.
unfoldable pub settle_seat : ℕ → (Seat → Result Seat) → M (Unit {0})
unfolding seat_at put_seat
settle_seat i f = do s ← seat_at i; s' ← lift (f s); put_seat i s'

-- `(tick & WINDOW_MASK) as usize`.
abbrev pub slot_of : ℕ → ℕ
slot_of tick = tick % window_ticks

unfoldable pub level_at : ℕ → M Level
level_at i = gets λ b. b.levels i

unfoldable pub edit_level : ℕ → (Level → Level) → M (Unit {0})
edit_level i f = modify λ b. with_level i (f (b.levels i)) b

unfoldable pub edit_bitmap : Side → (Bitmap → Bitmap) → M (Unit {0})
edit_bitmap s f = modify (with_bitmap s f)

unfoldable pub bitmap : Side → Book → Bitmap
bitmap bid b = b.bid_bitmap
bitmap ask b = b.ask_bitmap

unfoldable pub is_occupied : Side → ℕ → Book → Bool
unfolding bitmap
is_occupied s tick b = get (bitmap s b) tick

unfoldable pub best_bid : Book → Option ℕ
best_bid b = highest b.bid_bitmap b.header.anchor_tick

unfoldable pub best_ask : Book → Option ℕ
best_ask b = lowest b.ask_bitmap b.header.anchor_tick

-- The best price on the other side of the book.
unfoldable pub opposing_best : Side → Book → Option ℕ
unfolding best_bid best_ask
opposing_best bid b = best_ask b
opposing_best ask b = best_bid b

-- `locked_atoms`: bids lock quote, asks lock base.
unfoldable pub locked_atoms : Side → ℕ → ℕ → Market → Bool × ℕ
locked_atoms bid tick lots h = (false, notional h tick lots)
locked_atoms ask tick lots h = (true, base_atoms h lots)
