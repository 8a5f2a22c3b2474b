-- ===== src/Bitmap/Window/Next.antt =====
-- `next_at_or_after` over the window.
use native.Mathlib.Decide.{dec_lt}
use solana_orderbook.Base.{
  ℕ, ◌+◌, ◌-◌, ◌%◌, ◌≤◌, ◌<◌, ◌≡◌, refl, subst, ◌⊎◌, inl, inr, min, true, false, Option, none, some,
  arith, Bool-cases, ltb, ltb→lt, ltb→ge, u32_mod, add32, add64, sub64, add32_exact, add64_exact,
  sub32_exact, sub64_exact,
}
use solana_orderbook.Bitmap.{
  Bitmap, occupied, get, scan_up, next_wrapped, next_in, next_at_or_after,
}
use solana_orderbook.Bitmap.Scan.{IsConsistent, IsLowest}
use solana_orderbook.Bitmap.Scan.Up.{scan_up-IsLowest}
use solana_orderbook.Bitmap.Window.{get_at}

module _ {b : Bitmap} (c : IsConsistent b) (from : ℕ) where
  -- The ticks from `from` up to the physical end, or to the end of the window.
  next_segment :
      (to p start : ℕ)
      → start ≡ from % 8192
      → IsLowest (occupied b) start to (some p)
      → to ≤ 8192
      → (stop : ℕ) → from + (to - start) ≤ stop
      → IsLowest (get b) from stop (some (from + (p - start)))
  next_segment to p start e l top stop h = (
    omega arith,
    omega arith,
    get_at b (from + (p - start)) p true (omega arith) (l.2),
    λ q lo hi.
        get_at b q (start + (q - from)) false (omega arith)
          (l.3 (start + (q - from)) (omega arith) (omega arith)),
  )

  -- The ticks behind the physical end, at the positions from 0.
  wrapped_ticks :
      (ahead remaining start : ℕ) (r : Option ℕ)
      → start ≡ from % 8192
      → start + ahead ≡ 8192
      → remaining ≤ 8192
      → from + ahead + remaining ≤ u32_mod
      → IsLowest (occupied b) start (start + ahead) none
      → IsLowest (occupied b) 0 remaining r
      → IsLowest
          (get b)
          from
          (from + ahead + remaining)
          (elim r [ some p ↦ some (add32 (add32 from ahead) p) | none ↦ none ])
  wrapped_ticks ahead remaining start none e turn small fits l r = λ q lo hi.
      elim (dec_lt q (from + ahead)) [
        | yes k ↦
            get_at b q (start + (q - from)) false (omega arith)
              (l (start + (q - from)) (omega arith) (omega arith))
        | no k ↦
            get_at b q (q - from - ahead) false (omega arith)
              (r (q - from - ahead) (omega arith) (omega arith))
      ]
  wrapped_ticks ahead remaining start (some p) e turn small fits l r =
      rw (add32_exact from ahead (omega arith), add32_exact (from + ahead) p (omega arith))
        (
          omega arith,
          omega arith,
          get_at b (from + ahead + p) p true (omega arith) (r.2),
          λ q lo hi. elim (dec_lt q (from + ahead)) [
            | yes k ↦
                get_at b q (start + (q - from)) false (omega arith)
                  (l (start + (q - from)) (omega arith) (omega arith))
            | no k ↦
                get_at b q (q - from - ahead) false (omega arith)
                  (r.3 (q - from - ahead) (omega arith) (omega arith))
          ],
        )

  next_wrapped-IsLowest :
      (ahead remaining start : ℕ)
      → start ≡ from % 8192
      → (remaining ≡ 0) ⊎ (start + ahead ≡ 8192)
      → start + ahead ≤ 8192
      → remaining ≤ 8192
      → from + ahead + remaining ≤ u32_mod
      → IsLowest (occupied b) start (start + ahead) none
      → IsLowest (get b) from (from + ahead + remaining) (next_wrapped b from ahead remaining)
  unfolding next_wrapped
  next_wrapped-IsLowest ahead remaining start e or_zero top small fits l =
      elim (Bool-cases (ltb 0 remaining)) [
        | inr done ↦ rw done (λ q lo hi.
            get_at b q (start + (q - from)) false (omega (arith, ltb→ge 0 remaining done))
              (l (start + (q - from)) (omega arith) (omega (arith, ltb→ge 0 remaining done))))
        | inl more ↦ rw more (
            wrapped_ticks ahead remaining start (scan_up b 0 remaining) e
              (omega (arith, ltb→lt 0 remaining more)) small fits l
              (scan_up-IsLowest c 0 remaining (omega arith) small))
      ]

  next_ticks :
      (count seg_end start : ℕ) (r : Option ℕ)
      → start ≡ from % 8192
      → seg_end ≡ min 8192 (start + count)
      → count ≤ 8192
      → from + count ≤ u32_mod
      → IsLowest (occupied b) start seg_end r
      → IsLowest (get b) from (from + count) (elim r [
        | some p ↦ some (add32 from (sub64 p start))
        | none ↦ next_wrapped b from (seg_end - start) (sub64 count (seg_end - start))
      ])
  next_ticks count seg_end start none e m small fits l =
      rw (sub64_exact count (seg_end - start) (omega arith) (omega arith)) (
        subst
          (λ (x : ℕ).
            IsLowest (get b) from x
              (next_wrapped b from (seg_end - start) (count - (seg_end - start))))
          (omega arith)
          (next_wrapped-IsLowest (seg_end - start) (count - (seg_end - start)) start e (omega arith)
            (omega arith) (omega arith) (omega arith) (λ p lo hi. l p lo (omega arith))))
  next_ticks count seg_end start (some p) e m small fits l =
      rw
        (
          sub64_exact p start (omega arith) (omega arith),
          add32_exact from (p - start) (omega arith),
        )
        (next_segment seg_end p start e l (omega arith) (from + count) (omega arith))

  next_in-IsLowest :
      (count : ℕ)
      → count ≤ 8192
      → from + count ≤ u32_mod
      → IsLowest (get b) from (from + count) (next_in b from count)
  unfolding next_in
  next_in-IsLowest count small fits =
      let seg_end : min 8192 (add64 (from % 8192) count) ≡ min 8192 (from % 8192 + count) =
        omega (arith, add64_exact (from % 8192) count (omega arith)) in
      next_ticks count (min 8192 (add64 (from % 8192) count)) (from % 8192)
        (scan_up b (from % 8192) (min 8192 (add64 (from % 8192) count))) refl seg_end small fits
        (scan_up-IsLowest c (from % 8192) _ (omega (arith, seg_end)) (omega arith))

-- On a consistent bitmap, for a start in the window and a window of u32 ticks, `next_at_or_after`
-- is the lowest used tick of the window from the start on, and `none` if there is none.
pub next_at_or_after-IsLowest :
    (b : Bitmap) (anchor from : ℕ)
    → IsConsistent b
    → anchor ≤ from
    → from < anchor + 8192
    → anchor + 8192 ≤ u32_mod
    → IsLowest (get b) from (anchor + 8192) (next_at_or_after b anchor from)
unfolding next_at_or_after
next_at_or_after-IsLowest b anchor from c lo hi fits =
    rw
      (
        sub32_exact from anchor lo (omega arith),
        sub64_exact 8192 (from - anchor) (omega arith) (omega arith),
      )
      (subst (λ (x : ℕ). IsLowest (get b) from x (next_in b from (8192 - (from - anchor))))
        (omega arith)
        (next_in-IsLowest c from (8192 - (from - anchor)) (omega arith) (omega arith)))
