-- ===== src/Scale/Digits.antt =====
-- Strings of digits, as sdk/rust/src/scale.rs prints, trims, splits and reads them.
use solana_orderbook.Base.{
  ℕ, zero, suc, ◌+◌, ◌-◌, ◌*◌, ◌/◌, ◌%◌, ◌^◌, ◌≤◌, ◌<◌, ◌≡◌, refl, sym, ap, ◌∙◌, inl, inr, Bool,
  Bool-cases, true, false, ◌&&◌, List, [], ◌∷◌, ◌++◌, ◌==◌, arith,
}
use mathlib.Core.List.{append_assoc}
use native.Mathlib.Nat.{div-add-mod', pow-suc, mul_assoc}
use solana_orderbook.Base.Bytes.{length}
use solana_orderbook.Scale.{
  good, ◌and_then◌, u128_max, fitting, decimal, to_string, is_whitespace, trim_start, keep,
  trim_end, trim, split_point, read_digits, is_empty,
}

-- The digits, and with the point.
abbrev pub Digits : List ℕ → Type 0
Digits [] = Unit
Digits (c ∷ cs) = ((48 ≤ c) × (c ≤ 57)) × Digits cs

-- The number that digits go on with.
unfoldable pub value : ℕ → List ℕ → ℕ
value m [] = m
value m (c ∷ cs) = value (m * 10 + (c - 48)) cs

value-ge : (m : ℕ) (cs : List ℕ) → m ≤ value m cs
unfolding value
value-ge m [] = omega arith
value-ge m (c ∷ cs) = omega (arith, value-ge (m * 10 + (c - 48)) cs)

pub value-append : (m : ℕ) (xs ys : List ℕ) → value m (xs ++ ys) ≡ value (value m xs) ys
unfolding value
value-append m [] ys = refl
value-append m (x ∷ xs) ys = value-append (m * 10 + (x - 48)) xs ys

-- Digits whose number fits are read.
pub read_digits-value :
    (m : ℕ) (cs : List ℕ) → Digits cs → value m cs ≤ u128_max → read_digits m cs ≡ good (value m cs)
unfolding read_digits value fitting ◌and_then◌
read_digits-value m [] d h = refl
read_digits-value m (c ∷ cs) ((lo, hi), d) h =
    let step = read_digits-value (m * 10 + (c - 48)) cs d h in
    let fits = value-ge (m * 10 + (c - 48)) cs in ground (arith, step, fits)

pub decimal-Digits :
    (most width v : ℕ) (rest : List ℕ) → Digits rest → Digits (decimal most width v rest)
unfolding decimal
decimal-Digits zero width v rest d = d
decimal-Digits (suc most) width v rest d = elim (Bool-cases ((width == 0) && (v == 0))) [
  | inl e ↦ rw e d
  | inr e ↦ rw e (
      decimal-Digits most (width - 1) (v / 10) ((48 + v % 10) ∷ rest)
        ((omega arith, omega arith), d))
]

-- A number without a point in front of it.
pub decimal-value :
    (most width v : ℕ) (rest : List ℕ)
    → v < 10 ^ most
    → value 0 (decimal most width v rest) ≡ value v rest
unfolding decimal value
decimal-value zero width v rest h = ap (λ (x : ℕ). value x rest) (omega arith)
decimal-value (suc most) width v rest h = elim (Bool-cases ((width == 0) && (v == 0))) [
  | inl e ↦ rw e (ap (λ (x : ℕ). value x rest) (ground (arith, e)))
  | inr e ↦ rw e (
      decimal-value most (width - 1) (v / 10) ((48 + v % 10) ∷ rest) (omega (arith, h))
      ∙ ap (λ (x : ℕ). value x rest) (omega (arith, div-add-mod' v 10)))
]

-- As many digits as asked for, of a number that has no more.
pub decimal-width :
    (most width m v : ℕ) (rest : List ℕ)
    → width ≤ most
    → v < 10 ^ width
    → (value m (decimal most width v rest) ≡ value (m * 10 ^ width + v) rest)
      × (length (decimal most width v rest) ≡ width + length rest)
unfolding decimal value
decimal-width zero zero m v rest l h = (ap (λ (x : ℕ). value x rest) (omega arith), omega arith)
decimal-width zero (suc width) m v rest l h = (omega arith, omega arith)
decimal-width (suc most) zero m v rest l h =
    let z : v ≡ 0 = omega arith in rw z (ap (λ (x : ℕ). value x rest) (omega arith), omega arith)
decimal-width (suc most) (suc width) m v rest l h =
    let (p, q) =
      decimal-width most width m (v / 10) ((48 + v % 10) ∷ rest) (omega arith) (omega (arith, h)) in
    let e : ((suc width == 0) && (v == 0)) ≡ false = ground arith in
    let pred : suc width - 1 ≡ width = omega arith in
    let k : m * 10 ^ suc width ≡ m * 10 ^ width * 10 =
      ap (λ (x : ℕ). m * x) (pow-suc 10 width) ∙ sym (mul_assoc m (10 ^ width) 10) in
    rw (e, pred)
      (p ∙ ap (λ (x : ℕ). value x rest) (omega (arith, k, div-add-mod' v 10)), omega (arith, q))

pub decimal-append :
    (most width v : ℕ) (rest : List ℕ) → decimal most width v rest ≡ decimal most width v [] ++ rest
unfolding decimal
decimal-append zero width v rest = refl
decimal-append (suc most) width v rest = elim (Bool-cases ((width == 0) && (v == 0))) [
  | inl e ↦ rw e refl
  | inr e ↦ rw e (
      decimal-append most (width - 1) (v / 10) ((48 + v % 10) ∷ rest)
      ∙ sym (append_assoc (decimal most (width - 1) (v / 10) []) ((48 + v % 10) ∷ []) rest)
      ∙ ap (λ x. x ++ rest) (sym (decimal-append most (width - 1) (v / 10) ((48 + v % 10) ∷ []))))
]

decimal-longer :
    (most width v : ℕ) (rest : List ℕ) → length rest ≤ length (decimal most width v rest)
unfolding decimal
decimal-longer zero width v rest = omega arith
decimal-longer (suc most) width v rest = elim (Bool-cases ((width == 0) && (v == 0))) [
  | inl e ↦ rw e (omega arith)
  | inr e ↦ rw e (omega (arith, decimal-longer most (width - 1) (v / 10) ((48 + v % 10) ∷ rest)))
]

pub longer-is_empty : (xs : List ℕ) → 0 < length xs → is_empty xs ≡ false
unfolding is_empty
longer-is_empty [] h = ground arith
longer-is_empty (x ∷ xs) h = refl

-- The first digit is always printed.
pub to_string-is_empty : (v : ℕ) → is_empty (to_string v []) ≡ false
unfolding to_string decimal
to_string-is_empty v =
    longer-is_empty _ (omega (arith, decimal-longer 38 0 (v / 10) ((48 + v % 10) ∷ [])))

-- No character to trim.
abbrev pub Plain : List ℕ → Type 0
Plain [] = Unit
Plain (c ∷ cs) = (is_whitespace c ≡ false) × Plain cs

pub Digits-Plain : (xs ys : List ℕ) → Digits xs → Plain ys → Plain (xs ++ ys)
unfolding is_whitespace
Digits-Plain [] ys d p = p
Digits-Plain (x ∷ xs) ys ((lo, hi), d) p = (ground arith, Digits-Plain xs ys d p)

trim_end-Plain : (xs : List ℕ) → Plain xs → trim_end xs ≡ xs
unfolding trim_end keep
trim_end-Plain [] p = refl
trim_end-Plain (c ∷ []) (p, q) = rw p refl
trim_end-Plain (c ∷ (x ∷ xs)) (p, q) = rw (trim_end-Plain (x ∷ xs) q) refl

pub trim-Plain : (xs : List ℕ) → Plain xs → trim xs ≡ xs
unfolding trim trim_start
trim-Plain [] p = unfold trim_end in refl
trim-Plain (c ∷ cs) (p, q) = rw p (trim_end-Plain (c ∷ cs) (p, q))

pub split_point-Digits : (xs : List ℕ) → Digits xs → split_point xs ≡ (xs, [])
unfolding split_point
split_point-Digits [] d = refl
split_point-Digits (x ∷ xs) ((lo, hi), d) = ground (arith, split_point-Digits xs d)

pub split_point-at : (xs ys : List ℕ) → Digits xs → split_point (xs ++ (46 ∷ ys)) ≡ (xs, ys)
unfolding split_point
split_point-at [] ys d = refl
split_point-at (x ∷ xs) ys ((lo, hi), d) = ground (arith, split_point-at xs ys d)

pub and_false : (c : Bool) → (c && false) ≡ false
and_false true = refl
and_false false = refl

pub append_nil : (xs : List ℕ) → xs ++ [] ≡ xs
append_nil [] = refl
append_nil (x ∷ xs) = ap (λ ys. x ∷ ys) (append_nil xs)
