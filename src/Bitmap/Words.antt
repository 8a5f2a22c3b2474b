-- ===== src/Bitmap/Words.antt =====
-- A 64-bit word used as a bit set: bit `i` of the word is the value at `i`.
use mathlib.Core.Bool.{false≢true}
use native.Mathlib.Decide.{dec_lt}
use solana_orderbook.Base.{
  ℕ, zero, suc, ◌+◌, ◌-◌, ◌≤◌, ◌<◌, ◌≡◌, ap, sym, ◌∙◌, subst, inl, inr, Bool, true, false, not,
  ◌&&◌, arith, leb, ◌==◌, if◌then◌else◌, Bool-cases,
}

abbrev pub Word : Type 0
Word = ℕ → Bool

-- `w | (1 << k)`, `w & !(1 << k)`, `w & (MAX << k)`, `w & (MAX >> (63 - k))`.
unfoldable pub with_bit : ℕ → Word → Word
with_bit k w i = if i == k then true else w i

unfoldable pub without_bit : ℕ → Word → Word
without_bit k w i = if i == k then false else w i

unfoldable pub from_bit : ℕ → Word → Word
from_bit k w i = w i && leb k i

unfoldable pub up_to_bit : ℕ → Word → Word
up_to_bit k w i = w i && leb i k

none_below : ℕ → Word → Bool
none_below zero w = true
none_below (suc n) w = not (w n) && none_below n w

unfoldable pub is_zero : Word → Bool
unfolding none_below
is_zero w = none_below 64 w

-- The zeros of `w` from bit `i` up, among the next `n` bits.
zeros_up : ℕ → ℕ → Word → ℕ
zeros_up zero i w = 0
zeros_up (suc n) i w = if w i then 0 else suc (zeros_up n (i + 1) w)

unfoldable pub trailing_zeros : Word → ℕ
unfolding zeros_up
trailing_zeros w = zeros_up 64 0 w

-- The zeros of `w` from bit `n - 1` down.
zeros_down : ℕ → Word → ℕ
zeros_down zero w = 0
zeros_down (suc n) w = if w n then 0 else suc (zeros_down n w)

unfoldable pub leading_zeros : Word → ℕ
unfolding zeros_down
leading_zeros w = zeros_down 64 w

abbrev pub IsZero : Word → Type 0
IsZero w = (i : ℕ) → i < 64 → w i ≡ false

none_below_sound : (n : ℕ) (w : Word) → none_below n w ≡ true → (i : ℕ) → i < n → w i ≡ false
unfolding none_below
none_below_sound zero w e i h = absurd (omega arith)
none_below_sound (suc n) w e i h = ground (arith, none_below_sound n w (ground arith) i)

pub is_zero_sound : (w : Word) → is_zero w ≡ true → IsZero w
unfolding is_zero
is_zero_sound w e i h = none_below_sound 64 w e i h

none_below_complete : (n : ℕ) (w : Word) (i : ℕ) → i < n → w i ≡ true → none_below n w ≡ false
unfolding none_below
none_below_complete zero w i h e = absurd (omega arith)
none_below_complete (suc n) w i h e = ground (arith, none_below_complete n w i)

pub is_zero-of_bit : (w : Word) (i : ℕ) → i < 64 → w i ≡ true → is_zero w ≡ false
unfolding is_zero
is_zero-of_bit w i h e = none_below_complete 64 w i h e

none_below_of : (n : ℕ) (w : Word) → ((i : ℕ) → i < n → w i ≡ false) → none_below n w ≡ true
unfolding none_below
none_below_of zero w h = ground arith
none_below_of (suc n) w h =
    ground (arith, h n (omega arith), none_below_of n w (λ i k. h i (omega arith)))

pub is_zero_of : (w : Word) → IsZero w → is_zero w ≡ true
unfolding is_zero
is_zero_of w h = none_below_of 64 w h

moved : (w : Word) (a b : ℕ) → a ≡ b → w a ≡ true → w b ≡ true
moved w a b e h = subst (λ (k : ℕ). w k ≡ true) e h

-- `z` is where the first set bit of `w` from `i` up lies, counted from `i`.
record FirstUp (n i : ℕ) (w : Word) (z : ℕ) : Type 0 where
  bound : z ≤ n
  clear : (j : ℕ) → i ≤ j → j < i + z → w j ≡ false
  hit : z < n → w (i + z) ≡ true

zeros_up_lem : (n i : ℕ) (w : Word) → FirstUp n i w (zeros_up n i w)
unfolding zeros_up
zeros_up_lem zero i w = record {
  bound = omega arith;
  clear = λ j h k. absurd (omega arith);
  hit = λ h. absurd (omega arith);
}
zeros_up_lem (suc n) i w = elim (Bool-cases (w i)) [
  | inl e ↦ rw e (record {
    bound = omega arith;
    clear = λ j h k. absurd (omega arith);
    hit = λ _. moved w i (i + 0) (omega arith) e;
  })
  | inr e ↦
      let rest = zeros_up_lem n (i + 1) w in
      let z = zeros_up n (i + 1) w in
      rw e (record {
        bound = omega (arith, rest.bound);
        clear = λ j h k. ground (arith, rest.clear j, ap w);
        hit = λ h. moved w (i + 1 + z) (i + suc z) (omega arith) (rest.hit (omega arith));
      })
]

record FirstDown (n : ℕ) (w : Word) (z : ℕ) : Type 0 where
  bound : z ≤ n
  clear : (j : ℕ) → n ≤ j + z → j < n → w j ≡ false
  hit : z < n → w (n - 1 - z) ≡ true

zeros_down_lem : (n : ℕ) (w : Word) → FirstDown n w (zeros_down n w)
unfolding zeros_down
zeros_down_lem zero w = record {
  bound = omega arith;
  clear = λ j h k. absurd (omega arith);
  hit = λ h. absurd (omega arith);
}
zeros_down_lem (suc n) w = elim (Bool-cases (w n)) [
  | inl e ↦ rw e (record {
    bound = omega arith;
    clear = λ j h k. absurd (omega arith);
    hit = λ _. moved w n (suc n - 1 - 0) (omega arith) e;
  })
  | inr e ↦
      let rest = zeros_down_lem n w in
      let z = zeros_down n w in
      rw e (record {
        bound = omega (arith, rest.bound);
        clear = λ j h k. ground (arith, rest.clear j);
        hit = λ h. moved w (n - 1 - z) (suc n - 1 - suc z) (omega arith) (rest.hit (omega arith));
      })
]

-- The lowest and the highest set bit among the first `n`.
pub record IsLowestBit (n : ℕ) (w : Word) (k : ℕ) : Type 0 where
  pub bound : k < n
  pub hit : w k ≡ true
  pub clear : (j : ℕ) → j < k → w j ≡ false

pub record IsHighestBit (n : ℕ) (w : Word) (k : ℕ) : Type 0 where
  pub bound : k < n
  pub hit : w k ≡ true
  pub clear : (j : ℕ) → k < j → j < n → w j ≡ false

FirstUp-lt : (n : ℕ) (w : Word) (z : ℕ) → FirstUp n 0 w z → none_below n w ≡ false → z < n
FirstUp-lt n w z f e = elim (dec_lt z n) [
  | yes h ↦ h
  | no h ↦
      absurd (false≢true (sym e ∙ none_below_of n w (λ i k. f.clear i (omega arith) (omega arith))))
]

zeros_up-IsLowestBit :
    (n : ℕ) (w : Word) → none_below n w ≡ false → IsLowestBit n w (zeros_up n 0 w)
zeros_up-IsLowestBit n w e =
    let z = zeros_up_lem n 0 w in
    let small = FirstUp-lt n w (zeros_up n 0 w) z e in
    record {
      bound = small;
      hit = moved w (0 + zeros_up n 0 w) (zeros_up n 0 w) (omega arith) (z.hit small);
      clear = λ j h. z.clear j (omega arith) (omega arith);
    }

pub trailing_zeros-IsLowestBit :
    (w : Word) → is_zero w ≡ false → IsLowestBit 64 w (trailing_zeros w)
unfolding trailing_zeros is_zero
trailing_zeros-IsLowestBit w e = zeros_up-IsLowestBit 64 w e

FirstDown-lt : (n : ℕ) (w : Word) (z : ℕ) → FirstDown n w z → none_below n w ≡ false → z < n
FirstDown-lt n w z f e = elim (dec_lt z n) [
  | yes h ↦ h
  | no h ↦ absurd (false≢true (sym e ∙ none_below_of n w (λ i k. f.clear i (omega arith) k)))
]

zeros_down-IsHighestBit :
    (n : ℕ) (w : Word)
    → none_below n w ≡ false
    → (zeros_down n w < n) × IsHighestBit n w (n - 1 - zeros_down n w)
zeros_down-IsHighestBit n w e =
    let z = zeros_down_lem n w in
    let small = FirstDown-lt n w (zeros_down n w) z e in
    (
      small,
      record { bound = omega arith; hit = z.hit small; clear = λ j h k. z.clear j (omega arith) k },
    )

pub leading_zeros-IsHighestBit :
    (w : Word)
    → is_zero w ≡ false
    → (leading_zeros w < 64) × IsHighestBit 64 w (64 - 1 - leading_zeros w)
unfolding leading_zeros is_zero
leading_zeros-IsHighestBit w e = zeros_down-IsHighestBit 64 w e

and_parts : (v : Bool) (a b : ℕ) → (v && leb a b) ≡ true → (a ≤ b) × (v ≡ true)
and_parts v a b h = ground arith

masked_off : (v : Bool) (a b : ℕ) → a ≤ b → (v && leb a b) ≡ false → v ≡ false
masked_off v a b h e = ground arith

-- What a masked word says of the word itself.
module _ (w : Word) (k : ℕ) where
  pub from_bit-zero : is_zero (from_bit k w) ≡ true → (j : ℕ) → k ≤ j → j < 64 → w j ≡ false
  unfolding from_bit
  from_bit-zero e j lo hi =
      let z : (w j && leb k j) ≡ false = is_zero_sound (from_bit k w) e j hi in ground arith

  pub from_bit-lowest :
      is_zero (from_bit k w) ≡ false
      → let t = trailing_zeros (from_bit k w) in
        (t < 64) × (k ≤ t) × (w t ≡ true) × ((j : ℕ) → k ≤ j → j < t → w j ≡ false)
  from_bit-lowest e =
      let z = trailing_zeros-IsLowestBit (from_bit k w) e in
      let t = trailing_zeros (from_bit k w) in
      let both : (k ≤ t) × (w t ≡ true) = unfold from_bit in and_parts (w t) k t z.hit in
      (
        z.bound,
        both.0,
        both.1,
        λ j lo hi. masked_off (w j) k j lo (unfold from_bit in z.clear j hi),
      )

  pub up_to_bit-zero : is_zero (up_to_bit k w) ≡ true → (j : ℕ) → j ≤ k → j < 64 → w j ≡ false
  unfolding up_to_bit
  up_to_bit-zero e j lo hi =
      let z : (w j && leb j k) ≡ false = is_zero_sound (up_to_bit k w) e j hi in ground arith

  pub up_to_bit-highest :
      is_zero (up_to_bit k w) ≡ false
      → let l = leading_zeros (up_to_bit k w) in
        (l < 64)
        × (63 - l ≤ k)
        × (w (63 - l) ≡ true)
        × ((j : ℕ) → 63 - l < j → j ≤ k → j < 64 → w j ≡ false)
  up_to_bit-highest e =
      let (small, z) = leading_zeros-IsHighestBit (up_to_bit k w) e in
      let l = leading_zeros (up_to_bit k w) in
      let both : (63 - l ≤ k) × (w (63 - l) ≡ true) =
        unfold up_to_bit in and_parts (w (63 - l)) (63 - l) k z.hit in
      (
        small,
        both.0,
        both.1,
        λ j lo hi top. masked_off (w j) j k hi (unfold up_to_bit in z.clear j lo top),
      )
