-- ===== src/Book/Occupancy/Joining.antt =====
-- What posting an order does to the occupancy bitmaps and to the queue of its level: the end of
-- `upsert_order` of program/src/state.rs.
use solana_orderbook.Base.{ℕ, ◌≡◌, true, if◌then◌else◌}
use solana_orderbook.Exec.{◌>>=◌, ◌>>◌}
use solana_orderbook.State.{Side}
use solana_orderbook.Book.{Book, is_occupied, slot_of}
use solana_orderbook.Book.Occupancy.{at_slot}

-- An order of the side at the tick, the node `idx`, has joined its queue: the ticks of its slot read
-- as used on its side, and every other reading is as before; it is last in the queue, and first if
-- the tick read as free.
pub record Joined (s : Side) (tick idx : ℕ) (b b' : Book) : Type 0 where
  pub bits :
      (u : Side) (t : ℕ)
      → is_occupied u t b' ≡ (if at_slot s tick u t then true else is_occupied u t b)
  pub last : (b'.levels (slot_of tick)).tail ≡ idx
  pub first :
      (b'.levels (slot_of tick)).head
      ≡ (if is_occupied s tick b then (b.levels (slot_of tick)).head else idx)

-- The bitmaps are as before, and a level has these ends.
record Ended (b : Book) (l head tail : ℕ) (t : Book) : Type 0 where
  bids : t.bid_bitmap ≡ b.bid_bitmap
  asks : t.ask_bitmap ≡ b.ask_bitmap
  front : (t.levels l).head ≡ head
  back : (t.levels l).tail ≡ tail

module _ (s : Side) (tick idx lots : ℕ) (b : Book) where
  abbrev place : ℕ
  place = slot_of tick

  abbrev Last : ℕ → Unit {0} → Book → Type 0
  Last head _ t = Ended b place head idx t
