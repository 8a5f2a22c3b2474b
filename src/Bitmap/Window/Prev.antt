-- ===== src/Bitmap/Window/Prev.antt =====
-- `prev_at_or_before` over the window.
use native.Mathlib.Decide.{dec_lt}
use solana_orderbook.Base.{
  ℕ, ◌+◌, ◌-◌, ◌%◌, ◌≤◌, ◌<◌, ◌≡◌, refl, subst, inl, inr, min, true, false, Option, none, some,
  arith, Bool-cases, ltb, ltb→ge, u32_mod, sub32, sub64, sub32_exact, sub64_exact,
}
use solana_orderbook.Bitmap.{
  Bitmap, occupied, get, scan_down, prev_wrapped, prev_in, prev_at_or_before,
}
use solana_orderbook.Bitmap.Scan.{IsConsistent, IsHighest}
use solana_orderbook.Bitmap.Scan.Down.{scan_down-IsHighest}
use solana_orderbook.Bitmap.Window.{get_at}

module _ {b : Bitmap} (c : IsConsistent b) (from : ℕ) where
  -- The ticks below the physical start, at the positions down from 8191.
  wrapped_down :
      (remaining start : ℕ) (r : Option ℕ)
      → start ≡ from % 8192
      → remaining ≤ 8192
      → start + remaining ≤ from
      → from < u32_mod
      → IsHighest (occupied b) start 0 none
      → IsHighest (occupied b) 8191 (8192 - remaining) r
      → IsHighest
          (get b)
          from
          (from - start - remaining)
          (elim r [ some p ↦ some (sub32 (sub32 from (start + 1)) (sub64 8191 p)) | none ↦ none ])
  wrapped_down remaining start none e small low fits l r = λ q lo hi.
      elim (dec_lt (q + start) from) [
        | yes k ↦
            get_at b q (8192 + q + start - from) false (omega arith)
              (r (8192 + q + start - from) (omega arith) (omega arith))
        | no k ↦
            get_at b q (q + start - from) false (omega arith)
              (l (q + start - from) (omega arith) (omega arith))
      ]
  wrapped_down remaining start (some p) e small low fits l r =
      rw
        (
          sub64_exact 8191 p (r.1) (omega arith),
          sub32_exact from (start + 1) (omega arith) (omega arith),
          sub32_exact (from - (start + 1)) (8191 - p) (omega arith) (omega arith),
        )
        (
          omega arith,
          omega arith,
          get_at b (from - (start + 1) - (8191 - p)) p true (omega arith) (r.2),
          λ q lo hi. elim (dec_lt (q + start) from) [
            | yes k ↦
                get_at b q (8192 + q + start - from) false (omega arith)
                  (r.3 (8192 + q + start - from) (omega arith) (omega arith))
            | no k ↦
                get_at b q (q + start - from) false (omega arith)
                  (l (q + start - from) (omega arith) (omega arith))
          ],
        )

  prev_wrapped-IsHighest :
      (remaining start : ℕ)
      → start ≡ from % 8192
      → remaining ≤ 8192
      → start + remaining ≤ from
      → from < u32_mod
      → IsHighest (occupied b) start 0 none
      → IsHighest (get b) from (from - start - remaining) (prev_wrapped b from start remaining)
  unfolding prev_wrapped
  prev_wrapped-IsHighest remaining start e small low fits l = elim (Bool-cases (ltb 0 remaining)) [
    | inr done ↦ rw done (λ q lo hi.
        get_at b q (q + start - from) false (omega (arith, ltb→ge 0 remaining done))
          (l (q + start - from) (omega arith) (omega arith)))
    | inl more ↦
        rw (more, sub64_exact 8192 remaining small (omega arith))
          (wrapped_down remaining start (scan_down b 8191 (8192 - remaining)) e small low fits l
            (scan_down-IsHighest c 8191 (8192 - remaining) (omega arith)))
  ]

  prev_wrapped-none :
      (start low remaining : ℕ)
      → remaining ≡ 0
      → IsHighest (get b) from low none
      → IsHighest (get b) from low (prev_wrapped b from start remaining)
  unfolding prev_wrapped
  prev_wrapped-none start low remaining e h = rw e h

  prev_ticks :
      (count seg_start start : ℕ) (r : Option ℕ)
      → start ≡ from % 8192
      → seg_start ≡ start + 1 - min count (start + 1)
      → 0 < count
      → count ≤ 8192
      → count ≤ from + 1
      → from < u32_mod
      → IsHighest (occupied b) start seg_start r
      → IsHighest (get b) from (from + 1 - count) (elim r [
        | some p ↦ some (sub32 from (sub64 start p))
        | none ↦ prev_wrapped b from start (sub64 count (start + 1 - seg_start))
      ])
  prev_ticks count seg_start start none e m pos small low fits l =
      rw (sub64_exact count (start + 1 - seg_start) (omega arith) (omega arith))
        (elim (dec_lt (start + 1) count) [
          | yes k ↦
              subst
                (λ (x : ℕ).
                  IsHighest (get b) from x
                    (prev_wrapped b from start (count - (start + 1 - seg_start))))
                (omega arith)
                (prev_wrapped-IsHighest (count - (start + 1 - seg_start)) start e (omega arith)
                  (omega arith) fits (λ p lo hi. l p (omega arith) hi))
          | no k ↦
              prev_wrapped-none start (from + 1 - count) (count - (start + 1 - seg_start))
                (omega arith)
                (λ q lo hi.
                  get_at b q (q + start - from) false (omega arith)
                    (l (q + start - from) (omega arith) (omega arith)))
        ])
  prev_ticks count seg_start start (some p) e m pos small low fits l =
      rw
        (
          sub64_exact start p (omega arith) (omega arith),
          sub32_exact from (start - p) (omega arith) fits,
        )
        (
          omega arith,
          omega arith,
          get_at b (from - (start - p)) p true (omega arith) (l.2),
          λ q lo hi.
              get_at b q (start - (from - q)) false (omega arith)
                (l.3 (start - (from - q)) (omega arith) (omega arith)),
        )

  prev_in-IsHighest :
      (count : ℕ)
      → 0 < count
      → count ≤ 8192
      → count ≤ from + 1
      → from < u32_mod
      → IsHighest (get b) from (from + 1 - count) (prev_in b from count)
  unfolding prev_in
  prev_in-IsHighest count pos small low fits =
      let start = from % 8192 in
      let seg_start = start + 1 - min count (start + 1) in
      prev_ticks count seg_start start (scan_down b start seg_start) refl refl pos small low fits
        (scan_down-IsHighest c start seg_start (omega arith))

-- On a consistent bitmap, for a start in the window that is a u32, `prev_at_or_before` is the
-- highest used tick of the window up to the start, and `none` if there is none.
pub prev_at_or_before-IsHighest :
    (b : Bitmap) (anchor from : ℕ)
    → IsConsistent b
    → anchor ≤ from
    → from < anchor + 8192
    → from < u32_mod
    → IsHighest (get b) from anchor (prev_at_or_before b anchor from)
unfolding prev_at_or_before
prev_at_or_before-IsHighest b anchor from c lo hi fits = rw (sub32_exact from anchor lo fits) (
    subst (λ (x : ℕ). IsHighest (get b) from x (prev_in b from (from - anchor + 1))) (omega arith)
      (prev_in-IsHighest c from (from - anchor + 1) (omega arith) (omega arith) (omega arith) fits))
