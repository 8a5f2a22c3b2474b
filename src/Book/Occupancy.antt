-- ===== src/Book/Occupancy.antt =====
-- The readings of the two bitmaps of program/src/state.rs, after a bit is set or cleared.
pub mod Leaving
pub mod Joining
use solana_orderbook.Base.{
  ℕ, inl, inr, ◌%◌, ◌≡◌, refl, ap, sym, ◌∙◌, Bool, true, false, ◌&&◌, not, Bool-cases, ◌||◌, ◌==◌,
  ltb, leb, if◌then◌else◌, arith, update_self,
}
use solana_orderbook.Exec.{Result, ok, pure, fail, gets, modify, raise, lift, ◌>>=◌, ◌>>◌}
use solana_orderbook.Exec.Errors.{panicked, invalid_lots, order_not_found}
use solana_orderbook.Exec.Keeps.{
  Post, Post-ok, Preorder, Keeps, Keeps-bind, Keeps-modify, keeps_rules,
}
use solana_orderbook.Exec.Triples.{
  Yields, Yields-bind, Yields-weaken, Yields-gets, Yields-pure, Yields-if, Yields-fail,
  Yields-raise,
}
use solana_orderbook.State.Constants.{nil}
use solana_orderbook.State.{Side, bid, ask}
use solana_orderbook.State.Header.{Market, next_id, advance_order_seq}
use solana_orderbook.State.Nodes.{Level, OrderNode, add_lots, sub_lots, zero_level, maker, side}
use solana_orderbook.State.Seats.{Seat}
use solana_orderbook.Bitmap.{Bitmap, get, set, clear}
use solana_orderbook.Bitmap.Laws.{get-set, get-clear}
use solana_orderbook.Book.{
  Book, M, with_header, with_pool, with_level, with_seat, with_bitmap, node_at, put_node, edit_node,
  seat_at, put_seat, edit_seat, settle_seat, level_at, edit_level, edit_bitmap, bitmap, is_occupied,
  slot_of,
}
use solana_orderbook.Book.Pool.{set_free_list, alloc_node, free_node}
use solana_orderbook.Book.Fifo.{
  set_links, set_head, set_tail, set_next, set_prev, fifo_append, fifo_unlink,
}
use solana_orderbook.Book.Chain.{
  chain_key, seek, chain_unlink, chain_splice, ensure_order_slot, chain_insert_sorted,
}
use solana_orderbook.Book.Orders.{
  lock_for, unlock_for, kill_order, set_order, book_insert, post_order, cancel_order,
}

-- The tests that the two results are stated with.
unfoldable pub sides_equal : Side → Side → Bool
sides_equal bid bid = true
sides_equal bid ask = false
sides_equal ask bid = false
sides_equal ask ask = true

-- A tick of the side and of the ring slot.
unfoldable pub at_slot : Side → ℕ → Side → ℕ → Bool
at_slot s tick u t = sides_equal u s && (t % 8192 == tick % 8192)

-- A reading after a bit is cleared.
pub is_occupied-clear :
    (s : Side) (tick : ℕ) (u : Side) (t : ℕ) (b : Book)
    → is_occupied u t (with_bitmap s (clear tick) b)
      ≡ (if at_slot s tick u t then false else is_occupied u t b)
unfolding is_occupied bitmap with_bitmap at_slot sides_equal
is_occupied-clear bid tick bid t b = get-clear b.bid_bitmap tick t
is_occupied-clear bid tick ask t b = refl
is_occupied-clear ask tick bid t b = refl
is_occupied-clear ask tick ask t b = get-clear b.ask_bitmap tick t

pub is_occupied-set :
    (s : Side) (tick : ℕ) (u : Side) (t : ℕ) (b : Book)
    → is_occupied u t (with_bitmap s (set tick) b)
      ≡ (if at_slot s tick u t then true else is_occupied u t b)
unfolding is_occupied bitmap with_bitmap at_slot sides_equal
is_occupied-set bid tick bid t b = get-set b.bid_bitmap tick t
is_occupied-set bid tick ask t b = refl
is_occupied-set ask tick bid t b = refl
is_occupied-set ask tick ask t b = get-set b.ask_bitmap tick t

pub same_levels :
    (s : Side) (f : Bitmap → Bitmap) (b : Book) → (with_bitmap s f b).levels ≡ b.levels
unfolding with_bitmap
same_levels bid f b = refl
same_levels ask f b = refl

pub same_reading :
    (u : Side) (t : ℕ) (b b' : Book)
    → b'.bid_bitmap ≡ b.bid_bitmap
    → b'.ask_bitmap ≡ b.ask_bitmap
    → is_occupied u t b' ≡ is_occupied u t b
unfolding is_occupied bitmap
same_reading bid t b b' p q = ap (λ m. get m t) p
same_reading ask t b b' p q = ap (λ m. get m t) q
