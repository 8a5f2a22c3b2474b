-- ===== src/Bitmap/Scan/Up.antt =====
-- `scan_up` of program/src/state.rs.
use solana_orderbook.Base.{
  ℕ, zero, suc, ◌+◌, ◌-◌, ◌*◌, ◌/◌, ◌%◌, ◌≤◌, ◌<◌, min, ◌≡◌, refl, ap, subst, ◌∙◌, inl, inr, Bool,
  true, false, Option, none, arith, Bool-cases, leb, ltb, leb→le, leb→gt, ltb→lt, ltb→ge,
  if◌then◌else◌,
}
use solana_orderbook.Bitmap.Words.{
  Word, is_zero, from_bit, trailing_zeros, trailing_zeros-IsLowestBit, from_bit-zero,
  from_bit-lowest,
}
use solana_orderbook.Bitmap.{Bitmap, occupied, below, scan_up_words, scan_up}
use solana_orderbook.Bitmap.Scan.{
  IsConsistent, IsLowest, IsLowest-extend, occupied_in, free_word, used_word,
}

below-IsLowest :
    (f : ℕ → Bool) (from to p : ℕ)
    → from ≤ p
    → f p ≡ true
    → ((q : ℕ) → from ≤ q → q < p → f q ≡ false)
    → IsLowest f from to (below to p)
unfolding below
below-IsLowest f from to p h e clear = elim (Bool-cases (ltb p to)) [
  | inl t ↦ rw t (h, ground arith, e, clear)
  | inr t ↦ rw t (λ q lo hi. clear q lo (ground arith))
]

module _ (b : Bitmap) (w : ℕ) where
  -- Positions of word `w` below bit `t`, read through the word.
  clear_below :
      (k t : ℕ)
      → t < 64
      → ((j : ℕ) → k ≤ j → j < t → b.leaves w j ≡ false)
      → (q : ℕ) → w * 64 + k ≤ q
      → q < w * 64 + t
      → occupied b q ≡ false
  clear_below k t small h q lo hi =
      occupied_in b w (q % 64) q false (omega arith) refl (h (q % 64) (omega arith) (omega arith))

  -- The lowest set bit of a masked leaf word.
  masked_hit :
      (k to : ℕ)
      → is_zero (from_bit k (b.leaves w)) ≡ false
      → IsLowest
          (occupied b)
          (w * 64 + k)
          to
          (below to (w * 64 + trailing_zeros (from_bit k (b.leaves w))))
  masked_hit k to e =
      let (small, above, hit, clear) = from_bit-lowest (b.leaves w) k e in
      let t = trailing_zeros (from_bit k (b.leaves w)) in
      below-IsLowest (occupied b) (w * 64 + k) to (w * 64 + t) (omega arith)
        (occupied_in b w t (w * 64 + t) true (omega arith) (omega arith) hit)
        (clear_below k t small clear)

  -- The lowest set bit of a whole leaf word.
  whole_hit :
      (to : ℕ)
      → is_zero (b.leaves w) ≡ false
      → IsLowest (occupied b) (w * 64) to (below to (w * 64 + trailing_zeros (b.leaves w)))
  whole_hit to e =
      let z = trailing_zeros-IsLowestBit (b.leaves w) e in
      let t = trailing_zeros (b.leaves w) in
      below-IsLowest (occupied b) (w * 64) to (w * 64 + t) (omega arith)
        (occupied_in b w t (w * 64 + t) true (omega arith) (omega arith) z.hit)
        (λ q lo hi. clear_below 0 t z.bound (λ j _ h. z.clear j h) q (omega arith) hi)

module _ {b : Bitmap} (c : IsConsistent b) where
  -- Clear summary bits from `w` up to `stop`, in one summary word, stand for free positions.
  free_words :
      (s w stop : ℕ)
      → w / 64 ≡ s
      → stop ≤ (s + 1) * 64
      → stop ≤ 128
      → ((j : ℕ) → w % 64 ≤ j → s * 64 + j < stop → j < 64 → b.summary s j ≡ false)
      → (p : ℕ) → w * 64 ≤ p
      → p < stop * 64
      → occupied b p ≡ false
  free_words s w stop e top small clear p lo hi =
      free_word c (p / 64) (omega arith)
        (ap (λ (x : ℕ). b.summary x (p / 64 % 64)) same
          ∙ clear (p / 64 % 64) (omega arith) (omega arith) (omega arith))
        p refl
    where
      same : p / 64 / 64 ≡ s
      same = omega arith

  -- The summary names the lowest word that is not zero.
  summary_hit :
      (to last_word w : ℕ)
      → 0 < to
      → to ≤ 8192
      → last_word ≡ (to - 1) / 64
      → w ≤ last_word
      → is_zero (from_bit (w % 64) (b.summary (w / 64))) ≡ false
      → let cand = w / 64 * 64 + trailing_zeros (from_bit (w % 64) (b.summary (w / 64))) in
        IsLowest (occupied b) (w * 64) to (
          if ltb last_word cand
          then none
          else below to (cand * 64 + trailing_zeros (b.leaves cand)))
  summary_hit to last_word w pos top e more here =
      let (small, above, hit, clear) = from_bit-lowest (b.summary (w / 64)) (w % 64) here in
      let k = trailing_zeros (from_bit (w % 64) (b.summary (w / 64))) in
      let cand = w / 64 * 64 + k in
      let free = λ (p : ℕ) (lo : w * 64 ≤ p) (hi : p < min cand 128 * 64).
        free_words (w / 64) w (min cand 128) refl (omega arith) (omega arith)
          (λ j from to' _. clear j from (omega arith)) p lo hi in
      elim (Bool-cases (ltb last_word cand)) [
        | inl past ↦ rw past (λ p lo hi. free p lo (omega (arith, ltb→lt last_word cand past)))
        | inr fits ↦
            let inside = ltb→ge last_word cand fits in
            rw fits (
              IsLowest-extend (occupied b) (w * 64) (cand * 64) to _ (omega arith)
                (λ p lo hi _. free p lo (omega arith))
                (whole_hit b cand to (
                  used_word c cand (omega arith)
                    (summary_bit cand k (omega arith) (omega arith) hit))))
      ]
    where
      summary_bit :
          (cand k : ℕ)
          → cand / 64 ≡ w / 64
          → cand % 64 ≡ k
          → b.summary (w / 64) k ≡ true
          → b.summary (cand / 64) (cand % 64) ≡ true
      summary_bit cand k p q h =
          ap (λ (x : ℕ). b.summary x (cand % 64)) p ∙ ap (b.summary (w / 64)) q ∙ h

  scan_up_words-IsLowest :
      (rounds to last_word w : ℕ)
      → 0 < to
      → to ≤ 8192
      → last_word ≡ (to - 1) / 64
      → w ≤ 128
      → 2 < rounds + w / 64
      → IsLowest (occupied b) (w * 64) to (scan_up_words rounds b to last_word w)
  unfolding scan_up_words
  scan_up_words-IsLowest zero to last_word w pos top e small enough = absurd (omega arith)
  scan_up_words-IsLowest (suc rounds) to last_word w pos top e small enough =
      elim (Bool-cases (leb w last_word)) [
        | inr past ↦ rw past (λ p lo hi. absurd (past_end p lo hi (leb→gt w last_word past)))
        | inl more ↦ rw more (elim (Bool-cases (is_zero sm)) [
          | inl none_here ↦ rw none_here (
              IsLowest-extend (occupied b) (w * 64) ((s + 1) * 64 * 64) to _ (omega arith)
                (λ p lo hi in_range.
                  free_words s w (min ((s + 1) * 64) 128) refl (omega arith) (omega arith)
                    (λ j above _ k. from_bit-zero (b.summary s) (w % 64) none_here j above k) p lo
                    (omega arith))
                (scan_up_words-IsLowest rounds to last_word ((s + 1) * 64) pos top e
                  (omega (arith, leb→le w last_word more)) (omega arith)))
          | inr here ↦ rw here (summary_hit to last_word w pos top e (leb→le w last_word more) here)
        ])
      ]
    where
      s : ℕ
      s = w / 64

      sm : Word
      sm = from_bit (w % 64) (b.summary s)

      past_end : (p : ℕ) → w * 64 ≤ p → p < to → last_word < w → ⊥
      past_end p lo hi h = omega arith

  -- Over a consistent bitmap, `scan_up` returns the lowest occupied position of the segment.
  pub scan_up-IsLowest :
      (from to : ℕ) → from < 8192 → to ≤ 8192 → IsLowest (occupied b) from to (scan_up b from to)
  unfolding scan_up
  scan_up-IsLowest from to small top = elim (Bool-cases (leb to from)) [
    | inl empty ↦ rw empty (λ p lo hi. absurd (nothing p lo hi (leb→le to from empty)))
    | inr some_left ↦ rw some_left (elim (Bool-cases (is_zero m)) [
      | inl none_here ↦ rw none_here (
          IsLowest-extend (occupied b) from ((from / 64 + 1) * 64) to _ (omega arith)
            (λ p lo hi _. occupied_in b (from / 64) (p % 64) p false (omega arith) refl (
              from_bit-zero (b.leaves (from / 64)) (from % 64) none_here (p % 64) (omega arith)
                (omega arith)))
            (scan_up_words-IsLowest 3 to ((to - 1) / 64) (from / 64 + 1)
              (omega (arith, leb→gt to from some_left)) top refl (omega arith) (omega arith)))
      | inr here ↦ rw here (
          moved _ (from / 64 * 64 + from % 64) from (omega arith)
            (masked_hit b (from / 64) (from % 64) to here))
    ])
  ]
    where
      m : Word
      m = from_bit (from % 64) (b.leaves (from / 64))

      nothing : (p : ℕ) → from ≤ p → p < to → to ≤ from → ⊥
      nothing p lo hi h = omega arith

      moved :
          (r : Option ℕ) (x y : ℕ)
          → x ≡ y
          → IsLowest (occupied b) x to r
          → IsLowest (occupied b) y to r
      moved r x y e h = subst (λ (z : ℕ). IsLowest (occupied b) z to r) e h
