-- ===== src/Bitmap/Scan.antt =====
-- The summary of a bitmap of program/src/state.rs, and what a scan of a segment looks for.
pub mod Up
pub mod Down
use native.Mathlib.Decide.{dec_lt}
use solana_orderbook.Base.{
  ℕ, ◌+◌, ◌*◌, ◌/◌, ◌%◌, ◌≤◌, ◌<◌, ◌≡◌, sym, ap, subst, ◌∙◌, inl, inr, Bool, true, false, not,
  Option, none, some, arith, Bool-cases,
}
use solana_orderbook.Bitmap.Words.{Word, is_zero, is_zero_sound, is_zero-of_bit}
use solana_orderbook.Bitmap.{Bitmap, occupied}

-- A set summary bit means that its leaf word is not zero, for each of the 128 leaf words.
pub record IsConsistent (b : Bitmap) : Type 0 where
  pub agrees : (w : ℕ) → w < 128 → b.summary (w / 64) (w % 64) ≡ not (is_zero (b.leaves w))

-- `r` is the lowest place of `[from, to)` where `f` holds.
abbrev pub IsLowest : (ℕ → Bool) → ℕ → ℕ → Option ℕ → Type 0
IsLowest f from to none = (p : ℕ) → from ≤ p → p < to → f p ≡ false
IsLowest f from to (some p) =
    (from ≤ p) × (p < to) × (f p ≡ true) × ((q : ℕ) → from ≤ q → q < p → f q ≡ false)

-- `r` is the highest place of `[down_to, from]` where `f` holds.
abbrev pub IsHighest : (ℕ → Bool) → ℕ → ℕ → Option ℕ → Type 0
IsHighest f from down_to none = (p : ℕ) → down_to ≤ p → p ≤ from → f p ≡ false
IsHighest f from down_to (some p) =
    (down_to ≤ p) × (p ≤ from) × (f p ≡ true) × ((q : ℕ) → p < q → q ≤ from → f q ≡ false)

pub IsLowest-extend :
    (f : ℕ → Bool) (a a' to : ℕ) (r : Option ℕ)
    → a ≤ a'
    → ((p : ℕ) → a ≤ p → p < a' → p < to → f p ≡ false)
    → IsLowest f a' to r
    → IsLowest f a to r
IsLowest-extend f a a' to none h clear l =
    λ p lo hi. elim (dec_lt p a') [ yes k ↦ clear p lo k hi | no k ↦ l p (omega arith) hi ]
IsLowest-extend f a a' to (some p) h clear l = (
  omega arith,
  l.1,
  l.2,
  λ q lo hi. elim (dec_lt q a') [
    | yes k ↦ clear q lo k (omega arith)
    | no k ↦ l.3 q (omega arith) hi
  ],
)

pub IsHighest-extend :
    (f : ℕ → Bool) (a a' down_to : ℕ) (r : Option ℕ)
    → a' ≤ a
    → ((p : ℕ) → a' < p → p ≤ a → down_to ≤ p → f p ≡ false)
    → IsHighest f a' down_to r
    → IsHighest f a down_to r
IsHighest-extend f a a' down_to none h clear l =
    λ p lo hi. elim (dec_lt a' p) [ yes k ↦ clear p k hi lo | no k ↦ l p lo (omega arith) ]
IsHighest-extend f a a' down_to (some p) h clear l = (
  l.0,
  omega arith,
  l.2,
  λ q lo hi. elim (dec_lt a' q) [
    | yes k ↦ clear q k hi (omega arith)
    | no k ↦ l.3 q lo (omega arith)
  ],
)

-- A position read through its leaf word.
pub occupied_in :
    (b : Bitmap) (w k p : ℕ) (v : Bool)
    → p / 64 ≡ w
    → p % 64 ≡ k
    → b.leaves w k ≡ v
    → occupied b p ≡ v
occupied_in b w k p v e f h = ap (λ (x : ℕ). b.leaves x (p % 64)) e ∙ ap (b.leaves w) f ∙ h

module _ {b : Bitmap} (c : IsConsistent b) (w : ℕ) (small : w < 128) where
  -- A clear summary bit stands for 64 free positions.
  pub free_word : b.summary (w / 64) (w % 64) ≡ false → (p : ℕ) → p / 64 ≡ w → occupied b p ≡ false
  free_word e p h =
      occupied_in b w (p % 64) p false h (ap (λ (x : ℕ). x) (omega arith))
        (is_zero_sound (b.leaves w) (ground (arith, c.agrees w small)) (p % 64) (omega arith))

  pub used_word : b.summary (w / 64) (w % 64) ≡ true → is_zero (b.leaves w) ≡ false
  used_word e = ground (arith, c.agrees w small)
