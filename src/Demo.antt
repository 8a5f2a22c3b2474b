-- ===== src/Demo.antt =====
-- A small market for the examples: ticks from 64, two traders on the seats 1 and 2, ten nodes.
pub mod Orders
pub mod Trades
pub mod Quotes
pub mod Cleanups
pub mod Bitmaps
pub mod Admins
pub mod Tokens
pub mod Worlds
pub mod Exits
pub mod Listings
pub mod Prices
pub mod Owners
use solana_orderbook.Base.{ℕ, ◌+◌, ◌≡◌, refl, Bool, true, false, ◌==◌, ltb, ◌&&◌, if◌then◌else◌}
use solana_orderbook.Exec.{Exec, Result, ok, err}
use solana_orderbook.State.{Side, bid, ask}
use solana_orderbook.State.Header.{Market}
use solana_orderbook.State.Nodes.{OrderNode, zero_level}
use solana_orderbook.State.Seats.{Seat}
use solana_orderbook.Bitmap.Laws.{empty}
use solana_orderbook.Book.{Book, M}

abbrev pub demo_header : Market
demo_header = record {
  version = 4;
  bump = 255;
  base_mint = 11;
  quote_mint = 12;
  base_vault = 13;
  quote_vault = 14;
  vault_authority = 15;
  authority = 16;
  config = 17;
  tick_size = 2;
  base_lot_size = 3;
  anchor_tick = 64;
  tick_limit = 10000;
  fee_bps = 100;
  max_lots_per_order = 50;
  order_pool_capacity = 10;
  free_head = 1;
  free_count = 9;
  seq = 0;
  order_seq = 0;
  fees_accrued_quote = 0;
  base_token_program = 0;
  quote_token_program = 0;
  base_decimals = 6;
  quote_decimals = 6;
}

abbrev pub demo_node : ℕ → OrderNode
demo_node i = record {
  prev = 0;
  next = if ltb i 9 then i + 1 else 0;
  maker_prev = 0;
  maker_next = 0;
  tick = 0;
  maker_bits = 0;
  lots = 0;
  expiry_slot = 0;
  seq = 0;
}

abbrev pub demo_seat : ℕ → Seat
demo_seat i = record {
  owner = if ltb 0 i && ltb i 3 then 100 + i else 0;
  base_free = if i == 1 then 500 else 0;
  quote_free = if i == 2 then 90000 else 0;
  base_locked = 0;
  quote_locked = 0;
  orders_head = 0;
  order_count = 0;
}

abbrev pub demo : Book
demo = record {
  header = demo_header;
  bid_bitmap = empty;
  ask_bitmap = empty;
  levels = λ i. zero_level;
  seats = demo_seat;
  pool = demo_node;
}

-- The book that an operation leaves.
abbrev pub after_of : {A : Type 0} → Book → Result (A × Book) → Book
after_of b (ok (a, t)) = t
after_of b (err e) = b

abbrev pub after : {A : Type 0} → M A → Book → Book
after m b = after_of b (m b)
