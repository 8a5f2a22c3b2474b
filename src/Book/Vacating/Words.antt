-- ===== src/Book/Vacating/Words.antt =====
-- The eviction of a word of ticks by `reanchor_step` of program/src/state.rs.
use native.Mathlib.Decide.{ℕ_discrete}
use solana_orderbook.Base.{
  ℕ, ◌+◌, ◌/◌, ◌%◌, ◌≤◌, ◌<◌, ◌≡◌, refl, sym, subst, ◌∙◌, Bool, true, false, not, ◌||◌, arith,
  if◌then◌else◌, u32_max, add32, add32_exact,
}
use solana_orderbook.Exec.{pure, go_on, leave, loop}
use solana_orderbook.Exec.Keeps.{Preorder, Keeps, keeps_rules}
use solana_orderbook.Exec.Triples.{
  Yields, Yields-bind, Yields-weaken, Yields-and, Yields-always, Yields-gets, Yields-pure,
  Yields-if, Ends, Yields-loop,
}
use solana_orderbook.State.{Side, bid, ask}
use solana_orderbook.Bitmap.{Bitmap, get, word_empty}
use solana_orderbook.Bitmap.Words.{is_zero_sound}
use solana_orderbook.Book.{Book, is_occupied, bitmap, level_at, slot_of}
use solana_orderbook.Book.Orders.{kill_order}
use solana_orderbook.Book.Occupancy.Leaving.{Vacated, kill_order-Vacates}
use solana_orderbook.Book.Hygiene.{evict_round, evict_level, evict_side, vacate_round, vacate_word}

-- What reads as free still does.
abbrev pub Clears : Book → Book → Type 0
Clears b b' = (u : Side) (t : ℕ) → is_occupied u t b ≡ false → is_occupied u t b' ≡ false

abbrev clearing : Preorder Book
clearing = record {
  Rel = Clears;
  rel_refl = λ b u t e. e;
  rel_trans = λ b c d p q u t e. q u t (p u t e);
}

kill_order-Clears : (idx : ℕ) → Keeps clearing (kill_order idx)
kill_order-Clears idx = record {
  holds = λ b.
      (Yields-weaken (λ _ t. Vacated (b.pool idx) b t) (kill_order idx) b (kill_order-Vacates idx b)
        λ _ t v u x e. v.bits u x ∙ settled _ e).outcome;
}
  where
    settled : (c : Bool) {r : Bool} → r ≡ false → (if c then false else r) ≡ false
    settled true e = refl
    settled false e = e

level_at-Clears : (l : ℕ) → Keeps clearing (level_at l)
unfolding level_at
level_at-Clears l = search keeps_rules

evict_round-Clears : (s : Side) (tick n : ℕ) → Keeps clearing (evict_round s tick n)
unfolding evict_round
evict_round-Clears s tick n = search (keeps_rules, level_at-Clears, kill_order-Clears) depth 9

module _ (budget : ℕ) where
  evict_level-Clears : (s : Side) (tick : ℕ) → Keeps clearing (evict_level budget s tick)
  unfolding evict_level
  evict_level-Clears s tick = search (keeps_rules, evict_round-Clears) depth 8

  evict_side-Clears : (s : Side) (tick n : ℕ) → Keeps clearing (evict_side budget s tick n)
  unfolding evict_side
  evict_side-Clears s tick n = search (keeps_rules, evict_level-Clears) depth 8

  vacate_round-Clears :
      (going : ℕ → Bool) (at : ℕ × ℕ) → Keeps clearing (vacate_round budget going at)
  unfolding vacate_round
  vacate_round-Clears going (t, n) = search (keeps_rules, evict_side-Clears) depth 10

  vacate_word-Clears :
      (going : ℕ → Bool) (tick n : ℕ) → Keeps clearing (vacate_word budget going tick n)
  unfolding vacate_word
  vacate_word-Clears going tick n = search (keeps_rules, vacate_round-Clears) depth 9

  -- The loop of `evict_level` ends at a free tick only.
  evict_level-Frees :
      (s : Side) (tick : ℕ) (b : Book)
      → Yields (λ _ t. is_occupied s tick t ≡ false) (evict_level budget s tick) b
  unfolding evict_level evict_round
  evict_level-Frees s tick b =
      Yields-loop (λ _ _. Unit {0}) budget (evict_round s tick) 0 b one_round tt
    where
      one_round :
          (n : ℕ) (t : Book)
          → Unit {0}
          → Yields
              (Ends (λ _ _. Unit {0}) (λ _ u. is_occupied s tick u ≡ false))
              (evict_round s tick n)
              t
      one_round n t _ = Yields-gets (is_occupied s tick) _ t (
          Yields-if (not (is_occupied s tick t)) (pure (leave n)) _ t
            (λ e. Yields-pure (leave n) t (ground (arith, e)))
            λ _.
              Yields-bind (λ _ _. Unit {0}) (level_at (slot_of tick)) _ t
                (Yields-always _ t λ _ _. tt)
                λ l u _.
                  Yields-bind (λ _ _. Unit {0}) (kill_order l.head) _ u
                    (Yields-always _ u λ _ _. tt) λ _ v _. Yields-pure _ v tt)

  evict_side-Frees :
      (s : Side) (tick n : ℕ) (b : Book)
      → Yields (λ _ t. is_occupied s tick t ≡ false) (evict_side budget s tick n) b
  unfolding evict_side
  evict_side-Frees s tick n b = Yields-gets (is_occupied s tick) _ b (
      Yields-if (is_occupied s tick b) _ (pure n) b
        (λ _.
          Yields-bind (λ _ t. is_occupied s tick t ≡ false) (evict_level budget s tick) _ b
            (evict_level-Frees s tick b) λ _ t e. Yields-pure _ t e)
        λ e. Yields-pure n b e)

-- The ticks from `lo` and below `hi` read as free on both sides.
abbrev pub Freed : ℕ → ℕ → Book → Type 0
Freed lo hi b = (u : Side) (x : ℕ) → lo ≤ x → x < hi → is_occupied u x b ≡ false

-- One tick more.
one_more :
    (lo t : ℕ) (b c : Book)
    → Freed lo t b
    → Clears b c
    → is_occupied bid t c ≡ false
    → is_occupied ask t c ≡ false
    → Freed lo (t + 1) c
one_more lo t b c f k p q u x low high = elim (ℕ_discrete x t) [
  | yes e ↦ at_tick u x e
  | no h ↦ k u x (f u x low (omega (arith, h)))
]
  where
    at_tick : (u : Side) (x : ℕ) → x ≡ t → is_occupied u x c ≡ false
    at_tick bid x e = subst (λ (y : ℕ). is_occupied bid y c ≡ false) (sym e) p
    at_tick ask x e = subst (λ (y : ℕ). is_occupied ask y c ≡ false) (sym e) q

-- A tick of a word that is empty.
word_free :
    (m : Bitmap) (lo x : ℕ)
    → lo % 64 ≡ 0
    → lo ≤ x
    → x < lo + 64
    → word_empty m lo ≡ true
    → get m x ≡ false
unfolding word_empty get
word_free m lo x aligned low high e =
    let same_word : x % 8192 / 64 ≡ lo % 8192 / 64 = omega (arith, aligned, low, high) in
    subst (λ (w : ℕ). m.leaves w (x % 8192 % 64) ≡ false) (sym same_word)
      (is_zero_sound (m.leaves (lo % 8192 / 64)) e (x % 8192 % 64) (omega arith))

-- A loop over the ticks from `lo` to the end of the word.
module _ (budget : ℕ) (going : ℕ → Bool) (lo end : ℕ) (goes : (t : ℕ) → going t ≡ true → t < end)
    (stops : (t : ℕ) → going t ≡ false → end ≤ t) (small : end ≤ u32_max) where
  abbrev Upto : ℕ × ℕ → Book → Type 0
  Upto (t, n) b = Freed lo t b

  side_done :
      (s : Side) (t n : ℕ) (b : Book)
      → Yields (λ _ c. (is_occupied s t c ≡ false) × Clears b c) (evict_side budget s t n) b
  side_done s t n b =
      Yields-and (λ _ c. Clears b c) _ b (evict_side-Frees budget s t n b)
        (record { outcome = (evict_side-Clears budget s t n).holds b })

  vacate_round-Freed :
      (at : ℕ × ℕ) (b : Book)
      → Upto at b
      → Yields (Ends Upto (λ _ c. Freed lo end c)) (vacate_round budget going at) b
  unfolding vacate_round
  vacate_round-Freed (t, n) b f =
      Yields-if (going t) _ (pure (leave n)) b
        (λ e.
          Yields-bind (λ _ c. (is_occupied bid t c ≡ false) × Clears b c) _ _ b
            (side_done bid t n b)
            λ m c (p, k).
              Yields-bind (λ _ d. (is_occupied ask t d ≡ false) × Clears c d) _ _ c
                (side_done ask t m c)
                λ m' d (q, l). Yields-pure (go_on (add32 t 1, m')) d (
                  subst (λ (x : ℕ). Freed lo x d) (sym (add32_exact t 1 (omega (arith, goes t e))))
                    (one_more lo t b d f (λ u x h. l u x (k u x h)) (l bid t p) q)))
        λ e. Yields-pure (leave n) b λ u x low high. f u x low (omega (arith, stops t e))

  vacate-Freed :
      (n : ℕ) (b : Book)
      → Yields (λ _ c. Freed lo end c) (loop budget (vacate_round budget going) (lo, n)) b
  vacate-Freed n b =
      Yields-loop Upto budget (vacate_round budget going) (lo, n) b vacate_round-Freed
        λ u x low high. absurd (omega (arith, low, high))

  -- A word that is skipped has no used tick.
  word_empty-Freed :
      (b : Book)
      → lo % 64 ≡ 0
      → end ≡ lo + 64
      → word_empty b.bid_bitmap lo ≡ true
      → word_empty b.ask_bitmap lo ≡ true
      → Freed lo end b
  unfolding is_occupied bitmap
  word_empty-Freed b aligned word p q bid x low high =
      word_free b.bid_bitmap lo x aligned low (omega (arith, word, high)) p
  word_empty-Freed b aligned word p q ask x low high =
      word_free b.ask_bitmap lo x aligned low (omega (arith, word, high)) q

  pub vacate_word-Freed :
      (n : ℕ) (b : Book)
      → lo % 64 ≡ 0
      → end ≡ lo + 64
      → Yields (λ _ c. Freed lo end c × Clears b c) (vacate_word budget going lo n) b
  vacate_word-Freed n b aligned word =
      Yields-and (λ _ c. Clears b c) _ b freed_word
        (record { outcome = (vacate_word-Clears budget going lo n).holds b })
    where
      freed_word : Yields (λ _ c. Freed lo end c) (vacate_word budget going lo n) b
      freed_word =
          unfold vacate_word in
          (Yields-gets (λ c. word_empty c.bid_bitmap lo) _ b
            (Yields-gets (λ c. word_empty c.ask_bitmap lo) _ b
              (Yields-if (not (word_empty b.bid_bitmap lo) || not (word_empty b.ask_bitmap lo))
                (loop budget (vacate_round budget going) (lo, n)) (pure n) b (λ _. vacate-Freed n b)
                λ e.
                  Yields-pure n b
                    (word_empty-Freed b aligned word (ground (arith, e)) (ground (arith, e))))))
