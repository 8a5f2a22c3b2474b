-- ===== src/Book/Vacating.antt =====
-- The ticks that `reanchor_step` of program/src/state.rs leaves behind.
pub mod Words
use native.Mathlib.Decide.{dec_lt, ℕ_discrete}
use solana_orderbook.Base.{
  ℕ, ◌+◌, ◌/◌, ◌%◌, ◌≤◌, ◌<◌, ◌≡◌, refl, sym, subst, ◌∙◌, ◌⊎◌, inl, inr, Bool, true, false, not,
  ◌&&◌, ◌||◌, Bool-cases, arith, min, max, ltb, ltb→lt, ltb→ge, leb, if◌then◌else◌, u32_mod,
  u32_max, add32, sub32, add32_exact,
}
use solana_orderbook.Exec.{
  Exec, Result, ok, pure, gets, modify, ◌>>=◌, ◌>>◌, Step, go_on, leave, loop,
}
use solana_orderbook.Exec.Keeps.{Post-ok, Preorder, Keeps, keeps_rules}
use solana_orderbook.Exec.Triples.{
  Yields, Yields-bind, Yields-weaken, Yields-and, Yields-always, Yields-gets, Yields-pure,
  Yields-if, Ends, Yields-loop,
}
use solana_orderbook.State.{Side, bid, ask}
use solana_orderbook.State.Header.{Market}
use solana_orderbook.Bitmap.{Bitmap, get, word_empty}
use solana_orderbook.Bitmap.Words.{is_zero_sound}
use solana_orderbook.Book.{Book, M, with_header, is_occupied, bitmap, level_at, slot_of}
use solana_orderbook.Book.Orders.{kill_order}
use solana_orderbook.Book.Occupancy.Leaving.{Vacated, kill_order-Vacates}
use solana_orderbook.Book.Hygiene.{
  evict_round, evict_level, evict_side, vacate_round, vacate_word, slide_up, slide_down,
  ideal_anchor, set_anchor_tick, reanchor_step,
}
use solana_orderbook.Book.Anchors.{
  IsBetween, word_up, word_down, ideal_anchor-aligned, ideal_anchor-fits,
}
use solana_orderbook.Book.Vacating.Words.{Clears, Freed, vacate_word-Freed}

module _ (budget max_levels from to : ℕ) (aligned : to % 64 ≡ 0)
    (small : max from to + 8192 ≤ u32_max) where
  abbrev Bottom : ℕ × ℕ → Book → Type 0
  Bottom (cur, evicted) b = IsBetween from to cur × Freed from cur b

  abbrev Top : ℕ × ℕ → Book → Type 0
  Top (cur, evicted) b = IsBetween from to cur × Freed (cur + 8192) (from + 8192) b

  -- Two ranges that meet.
  joined :
      (lo mid hi : ℕ) (b c : Book) → Freed lo mid b → Clears b c → Freed mid hi c → Freed lo hi c
  joined lo mid hi b c f k g u x low high = elim (dec_lt x mid) [
    | yes h ↦ k u x (f u x low h)
    | no h ↦ g u x (omega (arith, h)) high
  ]

  slide_up-Bottom :
      (at : ℕ × ℕ) (b : Book)
      → from ≤ to
      → Bottom at b
      → Yields (Ends Bottom Bottom) (slide_up budget to max_levels at) b
  unfolding slide_up
  slide_up-Bottom (cur, evicted) b h (i, f) =
      Yields-if (ltb cur to && ltb evicted max_levels) _ (pure (leave (cur, evicted))) b
        (λ e.
          let more : ltb cur to ≡ true = ground (arith, e) in
          let next : add32 cur 64 ≡ cur + 64 = add32_exact cur 64 (omega (arith, i.high)) in
          Yields-bind (λ _ c. Freed cur (add32 cur 64) c × Clears b c) _ _ b
            (vacate_word-Freed budget (λ t. ltb t (add32 cur 64)) cur (add32 cur 64)
              (λ t. ltb→lt t (add32 cur 64)) (λ t. ltb→ge t (add32 cur 64))
              (omega (arith, next, i.high)) evicted b i.aligned next)
            λ n c (g, k). Yields-pure (go_on (add32 cur 64, n)) c (
              word_up budget max_levels from to aligned (omega (arith, small)) cur h more i,
              joined from cur (add32 cur 64) b c f k g,
            ))
        λ _. Yields-pure (leave (cur, evicted)) b (i, f)

  slide_down-Top :
      (at : ℕ × ℕ) (b : Book)
      → to ≤ from
      → Top at b
      → Yields (Ends Top Top) (slide_down budget to max_levels at) b
  unfolding slide_down
  slide_down-Top (cur, evicted) b h (i, f) =
      Yields-if (ltb to cur && ltb evicted max_levels) _ (pure (leave (cur, evicted))) b
        (λ e.
          let more : ltb to cur ≡ true = ground (arith, e) in
          let last : add32 cur 8191 ≡ cur + 8191 = add32_exact cur 8191 (omega (arith, i.high)) in
          let start : sub32 (add32 cur 8191) 63 ≡ cur + 8128 =
            unfold sub32 in (omega (arith, last, i.high)) in
          let before : sub32 cur 64 + 64 ≡ cur =
            unfold sub32 in (ground (arith, more, i.aligned, aligned, i.high)) in
          Yields-bind (λ _ c. Freed (sub32 (add32 cur 8191) 63) (cur + 8192) c × Clears b c) _ _ b
            (vacate_word-Freed budget (λ t. leb t (add32 cur 8191)) (sub32 (add32 cur 8191) 63)
              (cur + 8192) (λ t g. ground (arith, last, g)) (λ t g. ground (arith, last, g))
              (omega (arith, i.high)) evicted b (omega (arith, start, i.aligned))
              (omega (arith, start)))
            λ n c (g, k). Yields-pure (go_on (sub32 cur 64, n)) c (
              word_down budget max_levels from to aligned (omega (arith, small)) cur h more i,
              λ u x low high. elim (dec_lt x (cur + 8192)) [
                | yes y ↦ g u x (omega (arith, start, before, low)) y
                | no y ↦ k u x (f u x (omega (arith, y)) high)
              ],
            ))
        λ _. Yields-pure (leave (cur, evicted)) b (i, f)

-- The ticks of the window at `from` that are not in the window at `anchor`.
abbrev pub Vacant : ℕ → ℕ → Book → Type 0
Vacant from anchor b = Freed from anchor b × Freed (anchor + 8192) (from + 8192) b

module _ (budget target max_levels : ℕ) (b : Book) (aligned : b.header.anchor_tick % 64 ≡ 0)
    (window : b.header.anchor_tick + 8191 ≤ b.header.tick_limit)
    (ticks : b.header.tick_limit + 16384 ≤ u32_max) where
  abbrev from : ℕ
  from = b.header.anchor_tick

  abbrev to : ℕ
  to = ideal_anchor b.header.tick_limit target

  to_fits : to + 8191 ≤ b.header.tick_limit
  to_fits = ideal_anchor-fits b.header.tick_limit target (omega arith)

  small : max from to + 8192 ≤ u32_max
  small = omega (arith, to_fits)

  start : IsBetween from to from
  start = record { aligned = aligned; low = omega arith; high = omega arith }

  none_below : (lo hi : ℕ) (c : Book) → hi ≤ lo → Freed lo hi c
  none_below lo hi c h u x low high = absurd (omega (arith, h, low, high))

  abbrev slides : M (ℕ × ℕ)
  slides =
      if ltb from to
      then loop budget (slide_up budget to max_levels) (from, 0)
      else (if ltb to from
          then loop budget (slide_down budget to max_levels) (from, 0)
          else pure (from, 0))

  slides-Vacant : Yields (λ r t. Vacant from r.0 t) slides b
  slides-Vacant =
      Yields-if (ltb from to) _ _ b
        (λ e.
          Yields-weaken
            (λ r t. Bottom budget max_levels from to (ideal_anchor-aligned _ target) small r t) _ b
            (Yields-loop (Bottom budget max_levels from to (ideal_anchor-aligned _ target) small)
              budget (slide_up budget to max_levels) (from, 0) b
              (λ at t i.
                slide_up-Bottom budget max_levels from to (ideal_anchor-aligned _ target) small at t
                  (ground (arith, e)) i)
              (start, none_below from from b (omega arith)))
            λ (cur, n) t (i, f). (f, none_below _ _ t (omega (arith, i.low, ltb→lt from to e))))
        λ _.
          Yields-if (ltb to from) _ _ b
            (λ e.
              Yields-weaken
                (λ r t. Top budget max_levels from to (ideal_anchor-aligned _ target) small r t) _ b
                (Yields-loop (Top budget max_levels from to (ideal_anchor-aligned _ target) small)
                  budget (slide_down budget to max_levels) (from, 0) b
                  (λ at t i.
                    slide_down-Top budget max_levels from to (ideal_anchor-aligned _ target) small
                      at t (ground (arith, e)) i)
                  (start, none_below _ _ b (omega arith)))
                λ (cur, n) t (i, f).
                  (none_below _ _ t (omega (arith, i.high, ltb→lt to from e)), f))
            λ _.
              Yields-pure (from, 0) b
                (none_below _ _ b (omega arith), none_below _ _ b (omega arith))

  anchored :
      (lo hi : ℕ) (f : Market → Market) (t : Book) → Freed lo hi t → Freed lo hi (with_header f t)
  unfolding with_header is_occupied bitmap
  anchored lo hi f t g bid x low high = g bid x low high
  anchored lo hi f t g ask x low high = g ask x low high

  reanchor_step-Yields :
      Yields (λ r t. Vacant from r.1 t) (reanchor_step budget target max_levels) b
  unfolding reanchor_step modify pure ◌>>=◌
  reanchor_step-Yields =
      Yields-gets (λ c. c.header) _ b
        (Yields-bind (λ r t. Vacant from r.0 t) slides _ b slides-Vacant
          λ (cur, evicted) t (p, q). record {
            outcome = (
              anchored from cur (set_anchor_tick cur) t p,
              anchored (cur + 8192) (from + 8192) (set_anchor_tick cur) t q,
            );
          })

  -- On an anchor that is a multiple of 64 and whose window is in the ticks of the market, with a
  -- tick limit that leaves 16,384 ticks below the largest u32, after a successful `reanchor_step`
  -- every tick of the old window that is not in the new one reads as free on both sides.
  pub reanchor_step-Vacates :
      (evicted anchor : ℕ) (b' : Book)
      → reanchor_step budget target max_levels b ≡ ok ((evicted, anchor), b')
      → Vacant from anchor b'
  reanchor_step-Vacates evicted anchor b' e =
      Post-ok (λ r t. Vacant from r.1 t) (reanchor_step-Yields.outcome) e
