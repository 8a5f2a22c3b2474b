-- ===== src/Ledger/Taking/Levels.antt =====
-- The levels that the walk of `take` visits.
use solana_orderbook.Base.{
  ℕ, ◌+◌, ◌≤◌, ◌<◌, ◌≡◌, refl, Bool, Option, none, some, arith, u32_mod, add32, sub32,
}
use solana_orderbook.State.{Side, bid, ask}
use solana_orderbook.Bitmap.{get}
use solana_orderbook.Bitmap.Scan.{IsLowest, IsHighest}
use solana_orderbook.Bitmap.Window.Next.{next_at_or_after-IsLowest}
use solana_orderbook.Bitmap.Window.Prev.{prev_at_or_before-IsHighest}
use solana_orderbook.Book.{Book}
use solana_orderbook.Book.Index.{IsIndexed}
use solana_orderbook.Book.Crossing.{InWindow}
use solana_orderbook.Book.Take.{at_most, no_less, next_from, level_from}
use solana_orderbook.Ledger.Matching.{Beats}

pub next_from-InWindow :
    (s : Side) (anchor from : ℕ) (last : Option ℕ)
    → anchor + 8191 < u32_mod
    → InWindow anchor last
    → next_from s anchor last ≡ some from
    → (anchor ≤ from) × (from ≤ anchor + 8191)
unfolding next_from add32 sub32
next_from-InWindow bid anchor from none small w e = (ground arith, ground arith)
next_from-InWindow ask anchor from none small w e = (ground arith, ground arith)
next_from-InWindow bid anchor from (some t) small (lo, hi) e = (ground arith, ground arith)
next_from-InWindow ask anchor from (some t) small (lo, hi) e = (ground arith, ground arith)

-- A level that the walk may trade at.
abbrev pub Tradable : Side → ℕ → ℕ → ℕ → Type 0
Tradable s limit anchor best = (anchor ≤ best) × ((best ≤ anchor + 8191) × Beats s limit best)

at_most-Tradable :
    (f : ℕ → Bool) (from limit anchor best : ℕ) (o : Option ℕ)
    → anchor ≤ from
    → IsLowest f from (anchor + 8192) o
    → at_most limit o ≡ some best
    → Tradable bid limit anchor best
unfolding at_most
at_most-Tradable f from limit anchor best none lo l e = (ground arith, (ground arith, ground arith))
at_most-Tradable f from limit anchor best (some t) lo (x, y, z, k) e =
    (ground arith, (ground arith, ground arith))

no_less-Tradable :
    (f : ℕ → Bool) (from limit anchor best : ℕ) (o : Option ℕ)
    → from ≤ anchor + 8191
    → IsHighest f from anchor o
    → no_less limit o ≡ some best
    → Tradable ask limit anchor best
unfolding no_less
no_less-Tradable f from limit anchor best none lo l e = (ground arith, (ground arith, ground arith))
no_less-Tradable f from limit anchor best (some t) lo (x, y, z, k) e =
    (ground arith, (ground arith, ground arith))

pub level_from-Tradable :
    (s : Side) (limit anchor best : ℕ) (o : Option ℕ) (t : Book)
    → IsIndexed t
    → anchor + 8192 ≤ u32_mod
    → ((from : ℕ) → o ≡ some from → (anchor ≤ from) × (from ≤ anchor + 8191))
    → level_from s limit anchor o t ≡ some best
    → Tradable s limit anchor best
unfolding level_from
level_from-Tradable s limit anchor best none t i small h e =
    (ground arith, (ground arith, ground arith))
level_from-Tradable bid limit anchor best (some from) t i small h e =
    let (lo, hi) = h from refl in
    at_most-Tradable (get t.ask_bitmap) from limit anchor best _ lo
      (next_at_or_after-IsLowest t.ask_bitmap anchor from i.asks lo (omega arith) small) e
level_from-Tradable ask limit anchor best (some from) t i small h e =
    let (lo, hi) = h from refl in
    no_less-Tradable (get t.bid_bitmap) from limit anchor best _ hi
      (prev_at_or_before-IsHighest t.bid_bitmap anchor from i.bids lo (omega arith) (omega arith)) e
