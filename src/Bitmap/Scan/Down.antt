-- ===== src/Bitmap/Scan/Down.antt =====
-- `scan_down` of program/src/state.rs.
use solana_orderbook.Base.{
  ℕ, zero, suc, ◌+◌, ◌-◌, ◌*◌, ◌/◌, ◌%◌, ◌≤◌, ◌<◌, ◌≡◌, refl, ap, subst, ◌∙◌, inl, inr, Bool, true,
  false, Option, none, arith, Bool-cases, leb, ltb, leb→le, leb→gt, ltb→lt, ◌==◌, ==→eq, ==→ne,
  if◌then◌else◌,
}
use solana_orderbook.Bitmap.Words.{
  Word, is_zero, up_to_bit, leading_zeros, leading_zeros-IsHighestBit, up_to_bit-zero,
  up_to_bit-highest,
}
use solana_orderbook.Bitmap.{Bitmap, occupied, at_least, scan_down_words, scan_down}
use solana_orderbook.Bitmap.Scan.{
  IsConsistent, IsHighest, IsHighest-extend, occupied_in, free_word, used_word,
}

at_least-IsHighest :
    (f : ℕ → Bool) (from down_to p : ℕ)
    → p ≤ from
    → f p ≡ true
    → ((q : ℕ) → p < q → q ≤ from → f q ≡ false)
    → IsHighest f from down_to (at_least down_to p)
unfolding at_least
at_least-IsHighest f from down_to p h e clear = elim (Bool-cases (leb down_to p)) [
  | inl t ↦ rw t (leb→le down_to p t, h, e, clear)
  | inr t ↦ rw t (λ q lo hi. clear q (omega (arith, leb→gt down_to p t)) hi)
]

module _ (b : Bitmap) (w : ℕ) where
  -- The highest set bit of word `w`, bit `63 - l`, where the word is clear from there up to `k`.
  hit_at :
      (k l down_to : ℕ)
      → l < 64
      → k < 64
      → 63 - l ≤ k
      → b.leaves w (63 - l) ≡ true
      → ((j : ℕ) → 63 - l < j → j ≤ k → j < 64 → b.leaves w j ≡ false)
      → IsHighest (occupied b) (w * 64 + k) down_to (at_least down_to (w * 64 + 63 - l))
  hit_at k l down_to small top h hit clear =
      at_least-IsHighest (occupied b) (w * 64 + k) down_to (w * 64 + 63 - l) (omega arith)
        (occupied_in b w (63 - l) (w * 64 + 63 - l) true (omega arith) (omega arith) hit)
        (λ q lo hi.
          occupied_in b w (q % 64) q false (omega arith) refl
            (clear (q % 64) (omega arith) (omega arith) (omega arith)))

  masked_hit :
      (k down_to : ℕ)
      → k < 64
      → is_zero (up_to_bit k (b.leaves w)) ≡ false
      → IsHighest
          (occupied b)
          (w * 64 + k)
          down_to
          (at_least down_to (w * 64 + 63 - leading_zeros (up_to_bit k (b.leaves w))))
  masked_hit k down_to top e =
      let (small, under, hit, clear) = up_to_bit-highest (b.leaves w) k e in
      hit_at k (leading_zeros (up_to_bit k (b.leaves w))) down_to small top under hit clear

  whole_hit :
      (down_to : ℕ)
      → is_zero (b.leaves w) ≡ false
      → IsHighest
          (occupied b)
          (w * 64 + 63)
          down_to
          (at_least down_to (w * 64 + 63 - leading_zeros (b.leaves w)))
  whole_hit down_to e =
      let (small, z) = leading_zeros-IsHighestBit (b.leaves w) e in
      hit_at 63 (leading_zeros (b.leaves w)) down_to small (omega arith) (omega arith) z.hit
        (λ j lo _ hi. z.clear j lo hi)

module _ {b : Bitmap} (c : IsConsistent b) where
  -- Clear summary bits from word `start` to `w`, in one summary word, stand for free positions.
  free_words :
      (s w start : ℕ)
      → w / 64 ≡ s
      → s * 64 ≤ start
      → w < 128
      → ((j : ℕ) → start ≤ s * 64 + j → j ≤ w % 64 → j < 64 → b.summary s j ≡ false)
      → (p : ℕ) → start * 64 ≤ p
      → p ≤ w * 64 + 63
      → occupied b p ≡ false
  free_words s w start e low small clear p lo hi =
      free_word c (p / 64) (omega arith)
        (ap (λ (x : ℕ). b.summary x (p / 64 % 64)) same
          ∙ clear (p / 64 % 64) (omega arith) (omega arith) (omega arith))
        p refl
    where
      same : p / 64 / 64 ≡ s
      same = omega arith

  summary_hit :
      (down_to w : ℕ)
      → w < 128
      → is_zero (up_to_bit (w % 64) (b.summary (w / 64))) ≡ false
      → let cand = w / 64 * 64 + 63 - leading_zeros (up_to_bit (w % 64) (b.summary (w / 64))) in
        IsHighest (occupied b) (w * 64 + 63) down_to (
          if ltb cand (down_to / 64)
          then none
          else at_least down_to (cand * 64 + 63 - leading_zeros (b.leaves cand)))
  summary_hit down_to w top here =
      let (small, under, hit, clear) = up_to_bit-highest (b.summary (w / 64)) (w % 64) here in
      let l = leading_zeros (up_to_bit (w % 64) (b.summary (w / 64))) in
      let cand = w / 64 * 64 + 63 - l in
      let free = λ (p : ℕ) (lo : (cand + 1) * 64 ≤ p) (hi : p ≤ w * 64 + 63).
        free_words (w / 64) w (cand + 1) refl (omega arith) top
          (λ j from to small'. clear j (omega arith) to small') p lo hi in
      elim (Bool-cases (ltb cand (down_to / 64))) [
        | inl past ↦ rw past (λ p lo hi. free p (omega (arith, ltb→lt cand (down_to / 64) past)) hi)
        | inr fits ↦ rw fits (
            IsHighest-extend (occupied b) (w * 64 + 63) (cand * 64 + 63) down_to _ (omega arith)
              (λ p lo hi _. free p (omega arith) hi)
              (whole_hit b cand down_to (
                used_word c cand (omega arith)
                  (summary_bit cand (63 - l) (omega arith) (omega arith) hit))))
      ]
    where
      summary_bit :
          (cand k : ℕ)
          → cand / 64 ≡ w / 64
          → cand % 64 ≡ k
          → b.summary (w / 64) k ≡ true
          → b.summary (cand / 64) (cand % 64) ≡ true
      summary_bit cand k p q h =
          ap (λ (x : ℕ). b.summary x (cand % 64)) p ∙ ap (b.summary (w / 64)) q ∙ h

  scan_down_words-IsHighest :
      (rounds down_to w : ℕ)
      → w < 128
      → w / 64 < rounds
      → IsHighest (occupied b) (w * 64 + 63) down_to (scan_down_words rounds b down_to w)
  unfolding scan_down_words
  scan_down_words-IsHighest zero down_to w top enough = absurd (omega arith)
  scan_down_words-IsHighest (suc rounds) down_to w top enough = elim (Bool-cases (is_zero sm)) [
    | inr here ↦ rw here (summary_hit down_to w top here)
    | inl none_here ↦ rw none_here (elim (Bool-cases (s == 0)) [
      | inl bottom ↦ rw bottom (λ p lo hi. free none_here p (omega (arith, ==→eq s 0 bottom)) hi)
      | inr up ↦ rw up (elim (Bool-cases (ltb (s * 64 - 1) (down_to / 64))) [
        | inl past ↦ rw past (λ p lo hi.
            free none_here p (omega (arith, ltb→lt (s * 64 - 1) (down_to / 64) past)) hi)
        | inr on ↦
            let positive = ==→ne s 0 up in
            rw on (
              IsHighest-extend (occupied b) (w * 64 + 63) ((s * 64 - 1) * 64 + 63) down_to _
                (omega arith) (λ p lo hi _. free none_here p (omega arith) hi)
                (scan_down_words-IsHighest rounds down_to (s * 64 - 1) (omega arith) (omega arith)))
      ])
    ])
  ]
    where
      s : ℕ
      s = w / 64

      sm : Word
      sm = up_to_bit (w % 64) (b.summary s)

      free : is_zero sm ≡ true → (p : ℕ) → s * 64 * 64 ≤ p → p ≤ w * 64 + 63 → occupied b p ≡ false
      free e p lo hi =
          free_words s w (s * 64) refl (omega arith) top
            (λ j _ under small. up_to_bit-zero (b.summary s) (w % 64) e j under small) p lo hi

  -- Over a consistent bitmap, `scan_down` returns the highest occupied position of the segment.
  pub scan_down-IsHighest :
      (from down_to : ℕ)
      → from < 8192
      → IsHighest (occupied b) from down_to (scan_down b from down_to)
  unfolding scan_down
  scan_down-IsHighest from down_to top = elim (Bool-cases (is_zero m)) [
    | inr here ↦ rw here (
        moved _ (from / 64 * 64 + from % 64) from (omega arith)
          (masked_hit b (from / 64) (from % 64) down_to (omega arith) here))
    | inl none_here ↦ rw none_here (elim (Bool-cases (from / 64 == 0)) [
      | inl bottom ↦
          rw bottom (λ p lo hi. clear none_here p (omega (arith, ==→eq (from / 64) 0 bottom)) hi)
      | inr up ↦
          let positive = ==→ne (from / 64) 0 up in
          rw up (
            IsHighest-extend (occupied b) from ((from / 64 - 1) * 64 + 63) down_to _ (omega arith)
              (λ p lo hi _. clear none_here p (omega arith) hi)
              (scan_down_words-IsHighest 2 down_to (from / 64 - 1) (omega arith) (omega arith)))
    ])
  ]
    where
      m : Word
      m = up_to_bit (from % 64) (b.leaves (from / 64))

      clear : is_zero m ≡ true → (p : ℕ) → from / 64 * 64 ≤ p → p ≤ from → occupied b p ≡ false
      clear e p lo hi =
          occupied_in b (from / 64) (p % 64) p false (omega arith) refl (
            up_to_bit-zero (b.leaves (from / 64)) (from % 64) e (p % 64) (omega arith)
              (omega arith))

      moved :
          (r : Option ℕ) (x y : ℕ)
          → x ≡ y
          → IsHighest (occupied b) x down_to r
          → IsHighest (occupied b) y down_to r
      moved r x y e h = subst (λ (z : ℕ). IsHighest (occupied b) z down_to r) e h
