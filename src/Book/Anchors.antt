-- ===== src/Book/Anchors.antt =====
-- Where `reanchor_step` of program/src/state.rs moves the window.
use solana_orderbook.Base.{
  ℕ, ◌+◌, ◌%◌, ◌≤◌, ◌<◌, ◌≡◌, refl, Bool, true, false, ◌&&◌, arith, min, max, ltb, if◌then◌else◌,
  u32_mod, u32_max, add32, sub32,
}
use solana_orderbook.Exec.{Result, ok, err, pure, modify, ◌>>=◌, Step, go_on, leave, loop}
use solana_orderbook.Exec.Keeps.{Post, Post-ok}
use solana_orderbook.Exec.Triples.{
  Yields, Yields-bind, Yields-gets, Yields-pure, Yields-if, Ends, Yields-loop,
}
use solana_orderbook.Book.{Book, M, with_header}
use solana_orderbook.Book.Hygiene.{
  ideal_anchor, vacate_word, slide_up, slide_down, set_anchor_tick, reanchor_step,
}

-- The window that the caller may ask for is aligned to a bitmap word and inside the market's ticks.
pub ideal_anchor-aligned : (tick_limit target : ℕ) → ideal_anchor tick_limit target % 64 ≡ 0
unfolding ideal_anchor
ideal_anchor-aligned tick_limit target = omega arith

pub ideal_anchor-fits :
    (tick_limit target : ℕ) → 8191 ≤ tick_limit → ideal_anchor tick_limit target + 8191 ≤ tick_limit
unfolding ideal_anchor
ideal_anchor-fits tick_limit target h = omega arith

-- An anchor on the way from one place to another, in words of 64 ticks.
pub record IsBetween (from to anchor : ℕ) : Type 0 where
  pub aligned : anchor % 64 ≡ 0
  pub low : min from to ≤ anchor
  pub high : anchor ≤ max from to

any : {A : Type 0} (r : Result (A × Book)) → Post (λ _ _. Unit) r
any (ok (a, b)) = tt
any (err e) = tt

module _ (budget max_levels from to : ℕ) (aligned : to % 64 ≡ 0)
    (small : max from to + 8191 < u32_mod) where
  abbrev Sliding : ℕ × ℕ → Book → Type 0
  Sliding (cur, evicted) b = IsBetween from to cur

  pub word_up :
      (cur : ℕ)
      → from ≤ to
      → ltb cur to ≡ true
      → IsBetween from to cur
      → IsBetween from to (add32 cur 64)
  unfolding add32
  word_up cur h e i = record {
    aligned = ground (arith, i.aligned);
    low = ground (arith, i.low, i.high);
    high = ground (arith, i.aligned, i.low);
  }

  pub word_down :
      (cur : ℕ)
      → to ≤ from
      → ltb to cur ≡ true
      → IsBetween from to cur
      → IsBetween from to (sub32 cur 64)
  unfolding sub32
  word_down cur h e i = record {
    aligned = ground (arith, i.aligned, i.high);
    low = ground (arith, i.aligned, i.high);
    high = ground (arith, i.high, i.aligned);
  }

  -- The body of a slide, whatever it evicts.
  slid :
      {A : Type 0} (m : M A) (f : A → ℕ × ℕ) (b : Book)
      → ((a : A) (t : Book) → Sliding (f a) t)
      → Yields (Ends Sliding Sliding) (m >>= λ a. pure (go_on (f a))) b
  slid m f b h =
      Yields-bind (λ _ _. Unit) m (λ a. pure (go_on (f a))) b (record { outcome = any (m b) })
        λ a t u. Yields-pure (go_on (f a)) t (h a t)

  split :
      (c d : Bool) (m n : M (Step (ℕ × ℕ) (ℕ × ℕ))) (b : Book)
      → (c ≡ true → Yields (Ends Sliding Sliding) m b)
      → Yields (Ends Sliding Sliding) n b
      → Yields (Ends Sliding Sliding) (if c && d then m else n) b
  split true true m n b p q = p refl
  split true false m n b p q = q
  split false d m n b p q = q

  slide_up-Sliding :
      (at : ℕ × ℕ) (b : Book)
      → from ≤ to
      → Sliding at b
      → Yields (Ends Sliding Sliding) (slide_up budget to max_levels at) b
  unfolding slide_up
  slide_up-Sliding (cur, evicted) b h i =
      split (ltb cur to) (ltb evicted max_levels) _ (pure (leave (cur, evicted))) b
        (λ e.
          slid (vacate_word budget _ cur evicted) (λ n. (add32 cur 64, n)) b
            λ n t. word_up cur h e i)
        (Yields-pure (leave (cur, evicted)) b i)

  slide_down-Sliding :
      (at : ℕ × ℕ) (b : Book)
      → to ≤ from
      → Sliding at b
      → Yields (Ends Sliding Sliding) (slide_down budget to max_levels at) b
  unfolding slide_down
  slide_down-Sliding (cur, evicted) b h i =
      split (ltb to cur) (ltb evicted max_levels) _ (pure (leave (cur, evicted))) b
        (λ e.
          slid (vacate_word budget _ (sub32 (add32 cur 8191) 63) evicted) (λ n. (sub32 cur 64, n)) b
            λ n t. word_down cur h e i)
        (Yields-pure (leave (cur, evicted)) b i)

-- Where a call of `reanchor_step` leaves the window, on the way to the ideal anchor.
pub record Lands (target : ℕ) (b : Book) (anchor : ℕ) (b' : Book) : Type 0 where
  pub between : IsBetween b.header.anchor_tick (ideal_anchor b.header.tick_limit target) anchor
  pub fits : anchor + 8191 ≤ b.header.tick_limit
  pub written : b'.header.anchor_tick ≡ anchor

module _ (budget target max_levels : ℕ) (b : Book) (aligned : b.header.anchor_tick % 64 ≡ 0)
    (window : b.header.anchor_tick + 8191 ≤ b.header.tick_limit)
    (ticks : b.header.tick_limit + 16384 ≤ u32_max) where
  abbrev from : ℕ
  from = b.header.anchor_tick

  abbrev to : ℕ
  to = ideal_anchor b.header.tick_limit target

  to_fits : to + 8191 ≤ b.header.tick_limit
  to_fits = ideal_anchor-fits b.header.tick_limit target (omega arith)

  abbrev Reached : ℕ × ℕ → Book → Type 0
  Reached (cur, evicted) t = IsBetween from to cur

  start : IsBetween from to from
  start = record { aligned = aligned; low = omega arith; high = omega arith }

  abbrev slides : M (ℕ × ℕ)
  slides =
      if ltb from to
      then loop budget (slide_up budget to max_levels) (from, 0)
      else (if ltb to from
          then loop budget (slide_down budget to max_levels) (from, 0)
          else pure (from, 0))

  slides-Reached : Yields Reached slides b
  slides-Reached =
      Yields-if (ltb from to) _ _ b
        (λ e.
          Yields-loop Reached budget (slide_up budget to max_levels) (from, 0) b
            (λ at t i.
              slide_up-Sliding budget max_levels from to (ideal_anchor-aligned _ target)
                (omega (arith, to_fits)) at t (ground arith) i)
            start)
        λ _.
          Yields-if (ltb to from) _ _ b
            (λ e.
              Yields-loop Reached budget (slide_down budget to max_levels) (from, 0) b
                (λ at t i.
                  slide_down-Sliding budget max_levels from to (ideal_anchor-aligned _ target)
                    (omega (arith, to_fits)) at t (ground arith) i)
                start)
            λ _. Yields-pure (from, 0) b start

  landed :
      (cur evicted : ℕ) (t : Book)
      → IsBetween from to cur
      → Lands target b cur (with_header (set_anchor_tick cur) t)
  unfolding with_header set_anchor_tick
  landed cur evicted t i = record {
    between = i;
    fits = omega (arith, i.high, to_fits);
    written = refl;
  }

  pub reanchor_step-Yields :
      Yields (λ r u. Lands target b r.1 u) (reanchor_step budget target max_levels) b
  unfolding reanchor_step modify pure ◌>>=◌
  reanchor_step-Yields =
      Yields-gets (λ c. c.header) _ b
        (Yields-bind Reached slides _ b slides-Reached
          λ (cur, evicted) t i. record { outcome = landed cur evicted t i })

  -- On an anchor that is a multiple of 64 and whose window is in the ticks of the market, with a
  -- tick limit that leaves 16,384 ticks below the largest u32, a successful `reanchor_step`
  -- writes the anchor that it returns; it is a multiple of 64, between the old anchor and the
  -- ideal one, and its window is in the ticks of the market.
  pub reanchor_step-Lands :
      (evicted anchor : ℕ) (b' : Book)
      → reanchor_step budget target max_levels b ≡ ok ((evicted, anchor), b')
      → Lands target b anchor b'
  reanchor_step-Lands evicted anchor b' e =
      Post-ok (λ r u. Lands target b r.1 u) (reanchor_step-Yields.outcome) e
