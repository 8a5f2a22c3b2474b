-- ===== src/Book/Crossing.antt =====
-- The crossing check of program/src/state.rs: where an order may rest.
use solana_orderbook.Base.{
  ℕ, ◌+◌, ◌≤◌, ◌<◌, ◌≡◌, refl, Bool, false, Option, none, some, arith, u32_mod, add32, sub32,
  add32_exact,
}
use solana_orderbook.Exec.{Result, ok, err, gets, lift, ◌>>=◌}
use solana_orderbook.Exec.Keeps.{Post, Post-ok}
use solana_orderbook.State.{Side, bid, ask}
use solana_orderbook.State.Header.{Market}
use solana_orderbook.Bitmap.{get, lowest, highest}
use solana_orderbook.Bitmap.Scan.{IsLowest, IsHighest}
use solana_orderbook.Bitmap.Window.Next.{next_at_or_after-IsLowest}
use solana_orderbook.Bitmap.Window.Prev.{prev_at_or_before-IsHighest}
use solana_orderbook.Book.{Book, opposing_best, best_bid, best_ask}
use solana_orderbook.Book.Index.{IsIndexed}
use solana_orderbook.Book.Orders.{slide_off, check_or_slide_vs, check_or_slide}

-- A price that does not cross the best price of the other side.
abbrev pub Clear : Side → ℕ → Option ℕ → Type 0
Clear s tick none = Unit
Clear bid tick (some ba) = tick < ba
Clear ask tick (some bb) = bb < tick

-- No better for the maker than the price asked for.
abbrev pub NoBetter : Side → ℕ → ℕ → Type 0
NoBetter bid at tick = at ≤ tick
NoBetter ask at tick = tick ≤ at

abbrev pub InWindow : ℕ → Option ℕ → Type 0
InWindow anchor none = Unit
InWindow anchor (some t) = (anchor ≤ t) × (t ≤ anchor + 8191)

pub record Rests (s : Side) (tick anchor : ℕ) (best : Option ℕ) (at : ℕ) : Type 0 where
  pub low : anchor ≤ at
  pub high : at ≤ anchor + 8191
  pub clear : Clear s at best
  pub no_better : NoBetter s at tick

slide_off-Rests :
    (s : Side) (tick : ℕ) (slide : Bool) (anchor : ℕ) (best : Option ℕ) (at : ℕ)
    → anchor + 8191 < u32_mod
    → anchor ≤ tick
    → tick ≤ anchor + 8191
    → InWindow anchor best
    → slide_off s tick slide anchor best ≡ ok at
    → Rests s tick anchor best at
unfolding slide_off add32 sub32
slide_off-Rests bid tick slide anchor none at small lo hi w e = record {
  low = ground arith;
  high = ground arith;
  clear = tt;
  no_better = ground arith;
}
slide_off-Rests ask tick slide anchor none at small lo hi w e = record {
  low = ground arith;
  high = ground arith;
  clear = tt;
  no_better = ground arith;
}
slide_off-Rests bid tick slide anchor (some ba) at small lo hi (wl, wh) e = record {
  low = ground arith;
  high = ground arith;
  clear = ground arith;
  no_better = ground arith;
}
slide_off-Rests ask tick slide anchor (some bb) at small lo hi (wl, wh) e = record {
  low = ground arith;
  high = ground arith;
  clear = ground arith;
  no_better = ground arith;
}

check_or_slide_vs-Rests :
    (s : Side) (tick : ℕ) (slide : Bool) (best : Option ℕ) (h : Market) (at : ℕ)
    → h.anchor_tick + 8191 < u32_mod
    → InWindow h.anchor_tick best
    → check_or_slide_vs s tick slide best h ≡ ok at
    → Rests s tick h.anchor_tick best at
unfolding check_or_slide_vs
check_or_slide_vs-Rests s tick slide best h at small w e =
    slide_off-Rests s tick slide h.anchor_tick best at small
      (ground (arith, add32_exact h.anchor_tick 8191 small))
      (ground (arith, add32_exact h.anchor_tick 8191 small)) w
      (ground (arith, add32_exact h.anchor_tick 8191 small))

-- With consistent bitmaps and a window of u32 ticks, `best_ask` is the lowest tick of the window
-- that has an ask, and `none` if there is no ask.
pub best_ask-IsLowest :
    (b : Book)
    → IsIndexed b
    → b.header.anchor_tick + 8192 ≤ u32_mod
    → IsLowest (get b.ask_bitmap) b.header.anchor_tick (b.header.anchor_tick + 8192) (best_ask b)
unfolding best_ask lowest
best_ask-IsLowest b i small =
    next_at_or_after-IsLowest b.ask_bitmap b.header.anchor_tick b.header.anchor_tick i.asks
      (omega arith) (omega arith) small

-- With consistent bitmaps and a window of u32 ticks, `best_bid` is the highest tick of the window
-- that has a bid, and `none` if there is no bid.
pub best_bid-IsHighest :
    (b : Book)
    → IsIndexed b
    → b.header.anchor_tick + 8192 ≤ u32_mod
    → IsHighest (get b.bid_bitmap) (b.header.anchor_tick + 8191) b.header.anchor_tick (best_bid b)
unfolding best_bid highest
best_bid-IsHighest b i small = rw (add32_exact b.header.anchor_tick 8191 (omega arith)) (
    prev_at_or_before-IsHighest b.bid_bitmap b.header.anchor_tick (b.header.anchor_tick + 8191)
      i.bids (omega arith) (omega arith) (omega arith))

-- No order of the other side stands at `at` or at a price that an order at `at` would trade with.
abbrev pub Uncontested : Side → ℕ → Book → Type 0
Uncontested bid at b = (q : ℕ) → b.header.anchor_tick ≤ q → q ≤ at → get b.ask_bitmap q ≡ false
Uncontested ask at b =
    (q : ℕ) → at ≤ q → q ≤ b.header.anchor_tick + 8191 → get b.bid_bitmap q ≡ false

bid-Uncontested :
    (tick at : ℕ) (b : Book) (best : Option ℕ)
    → IsLowest (get b.ask_bitmap) b.header.anchor_tick (b.header.anchor_tick + 8192) best
    → Rests bid tick b.header.anchor_tick best at
    → Uncontested bid at b
bid-Uncontested tick at b none l r = λ q lo hi. l q lo (omega (arith, r.high))
bid-Uncontested tick at b (some ba) (x, y, z, l) r = λ q lo hi. l q lo (omega (arith, r.clear))

ask-Uncontested :
    (tick at : ℕ) (b : Book) (best : Option ℕ)
    → IsHighest (get b.bid_bitmap) (b.header.anchor_tick + 8191) b.header.anchor_tick best
    → Rests ask tick b.header.anchor_tick best at
    → Uncontested ask at b
ask-Uncontested tick at b none l r = λ q lo hi. l q (omega (arith, r.low)) hi
ask-Uncontested tick at b (some bb) (x, y, z, l) r = λ q lo hi. l q (omega (arith, r.clear)) hi

lowest-InWindow : (f : ℕ → Bool) (a : ℕ) (r : Option ℕ) → IsLowest f a (a + 8192) r → InWindow a r
lowest-InWindow f a none l = tt
lowest-InWindow f a (some t) (x, y, z, k) = (omega arith, omega arith)

highest-InWindow : (f : ℕ → Bool) (a : ℕ) (r : Option ℕ) → IsHighest f (a + 8191) a r → InWindow a r
highest-InWindow f a none l = tt
highest-InWindow f a (some t) (x, y, z, k) = (omega arith, omega arith)

-- Where `check_or_slide` lets an order rest.
pub record Admits (s : Side) (tick at : ℕ) (b : Book) : Type 0 where
  pub low : b.header.anchor_tick ≤ at
  pub high : at ≤ b.header.anchor_tick + 8191
  pub uncontested : Uncontested s at b
  pub no_better : NoBetter s at tick

admit :
    (s : Side) (tick at : ℕ) (slide : Bool) (b : Book)
    → IsIndexed b
    → b.header.anchor_tick + 8192 ≤ u32_mod
    → check_or_slide_vs s tick slide (opposing_best s b) b.header ≡ ok at
    → Admits s tick at b
unfolding opposing_best
admit bid tick at slide b i small e =
    let l = best_ask-IsLowest b i small in
    let r =
      check_or_slide_vs-Rests bid tick slide (best_ask b) b.header at (omega arith)
        (lowest-InWindow (get b.ask_bitmap) b.header.anchor_tick (best_ask b) l) e in
    record {
      low = r.low;
      high = r.high;
      no_better = r.no_better;
      uncontested = bid-Uncontested tick at b (best_ask b) l r;
    }
admit ask tick at slide b i small e =
    let l = best_bid-IsHighest b i small in
    let r =
      check_or_slide_vs-Rests ask tick slide (best_bid b) b.header at (omega arith)
        (highest-InWindow (get b.bid_bitmap) b.header.anchor_tick (best_bid b) l) e in
    record {
      low = r.low;
      high = r.high;
      no_better = r.no_better;
      uncontested = ask-Uncontested tick at b (best_bid b) l r;
    }

-- If `check_or_slide` admits a tick on a book with consistent bitmaps and a window of u32 ticks,
-- the tick is in the window, it is the one asked for or a worse one for the maker, no order of
-- the other side stands at it or at a price that it would trade with, and the book is unchanged.
pub check_or_slide-Admits :
    (s : Side) (tick at : ℕ) (slide : Bool) (b b' : Book)
    → IsIndexed b
    → b.header.anchor_tick + 8192 ≤ u32_mod
    → check_or_slide s tick slide b ≡ ok (at, b')
    → Admits s tick at b × (b' ≡ b)
unfolding check_or_slide ◌>>=◌ gets lift
check_or_slide-Admits s tick at slide b b' i small e =
    Post-ok (λ a t. Admits s tick a b × (t ≡ b))
      (lifted (check_or_slide_vs s tick slide (opposing_best s b) b.header)
        λ a p. admit s tick a slide b i small p)
      e
  where
    lifted :
        (r : Result ℕ)
        → ((a : ℕ) → r ≡ ok a → Admits s tick a b)
        → Post (λ a t. Admits s tick a b × (t ≡ b)) (lift r b)
    lifted (ok a) h = (h a refl, refl)
    lifted (err x) h = tt
