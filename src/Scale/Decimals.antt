-- ===== src/Scale/Decimals.antt =====
-- The decimal strings of sdk/rust/src/scale.rs, printed and read back.
use solana_orderbook.Base.{
  ℕ, zero, suc, ◌+◌, ◌-◌, ◌*◌, ◌/◌, ◌%◌, ◌^◌, ◌≤◌, ◌<◌, ◌≡◌, refl, ap, subst, ◌∙◌, Bool, true,
  false, List, [], ◌∷◌, ◌++◌, ◌==◌, ltb, if◌then◌else◌, arith, u64_max,
}
use native.Mathlib.Nat.{div-add-mod', mod-lt, one-le-pow, div-le_self}
use solana_orderbook.Base.Bytes.{length}
use solana_orderbook.Scale.{
  Scaled, good, bad, overflow, ◌and_then◌, u128_max, fitting, pow10, decimal, to_string, render,
  is_whitespace, is_empty, parse_decimal, atoms_to_ui_amount, ui_amount_to_atoms,
}
use solana_orderbook.Scale.Digits.{
  Digits, value, value-append, read_digits-value, decimal-Digits, decimal-value, decimal-width,
  decimal-append, longer-is_empty, to_string-is_empty, Plain, Digits-Plain, trim-Plain,
  split_point-Digits, split_point-at, and_false, append_nil,
}

-- A string of digits, without a point and with one.
read_whole :
    (cs : List ℕ)
    → Digits cs
    → is_empty cs ≡ false
    → value 0 cs ≤ u128_max
    → parse_decimal cs ≡ good (value 0 cs, 0)
unfolding parse_decimal ◌and_then◌
read_whole cs d e h =
    rw
      (
        trim-Plain cs (subst Plain (append_nil cs) (Digits-Plain cs [] d tt)),
        split_point-Digits cs d,
        e,
        append_nil cs,
        read_digits-value 0 cs d h,
      )
      refl

Digits-append : (xs ys : List ℕ) → Digits xs → Digits ys → Digits (xs ++ ys)
Digits-append [] ys d e = e
Digits-append (x ∷ xs) ys (h, d) e = (h, Digits-append xs ys d e)

read_point :
    (xs ys : List ℕ)
    → Digits xs
    → Digits ys
    → is_empty ys ≡ false
    → value 0 (xs ++ ys) ≤ u128_max
    → parse_decimal (xs ++ (46 ∷ ys)) ≡ good (value 0 (xs ++ ys), length ys)
unfolding parse_decimal ◌and_then◌ is_whitespace
read_point xs ys d e n h =
    rw
      (
        trim-Plain (xs ++ (46 ∷ ys)) (
            Digits-Plain xs (46 ∷ ys) d
              (refl, subst Plain (append_nil ys) (Digits-Plain ys [] e tt))),
        split_point-at xs ys d,
        n,
        and_false (is_empty xs),
        read_digits-value 0 (xs ++ ys) (Digits-append xs ys d e) h,
      )
      refl

-- A string with as many decimals as the target.
parsed :
    (m decimals : ℕ) (s : List ℕ)
    → m ≤ u64_max
    → parse_decimal s ≡ good (m, decimals)
    → ui_amount_to_atoms s decimals ≡ good m
unfolding ui_amount_to_atoms pow10 fitting ◌and_then◌
parsed m decimals s small e =
    let past : ltb decimals decimals ≡ false = ground arith in
    let none_left : decimals - decimals ≡ 0 = omega arith in
    let once : m * 1 ≡ m = omega arith in
    let wide : ltb u128_max m ≡ false = ground arith in
    let fits : ltb u64_max m ≡ false = ground arith in
    rw (e, past, none_left, once, wide, fits) refl

whole-read : (atoms : ℕ) → atoms ≤ u64_max → parse_decimal (to_string atoms []) ≡ good (atoms, 0)
unfolding to_string value
whole-read atoms small =
    let v : value 0 (to_string atoms []) ≡ atoms = decimal-value 39 1 atoms [] (omega arith) in
    read_whole (to_string atoms []) (decimal-Digits 39 1 atoms [] tt) (to_string-is_empty atoms)
      (omega (arith, v))
    ∙ ap (λ (x : ℕ). good (x, 0)) v

point-read :
    (atoms d : ℕ)
    → atoms ≤ u64_max
    → 0 < d
    → parse_decimal (to_string (atoms / 10 ^ d) (46 ∷ decimal (39 + d) d (atoms % 10 ^ d) []))
      ≡ good (atoms, d)
unfolding to_string value
point-read atoms d small some_digits =
    let pow = 10 ^ d in
    let positive : 0 < pow = omega (arith, one-le-pow d 10 (omega arith)) in
    let whole : List ℕ = decimal 39 1 (atoms / pow) [] in
    let part : List ℕ = decimal (39 + d) d (atoms % pow) [] in
    let (p, n) =
      decimal-width (39 + d) d (atoms / pow) (atoms % pow) [] (omega arith)
        (mod-lt atoms positive) in
    let q : value 0 whole ≡ atoms / pow =
      decimal-value 39 1 (atoms / pow) [] (below atoms pow small) in
    let v : value 0 (whole ++ part) ≡ atoms =
      value-append 0 whole part ∙ ap (λ (x : ℕ). value x part) q ∙ p ∙ div-add-mod' atoms pow in
    let l : length part ≡ d = omega (arith, n) in
    rw (decimal-append 39 1 (atoms / pow) (46 ∷ part)) (
      read_point whole part (decimal-Digits 39 1 (atoms / pow) [] tt)
        (decimal-Digits (39 + d) d (atoms % pow) [] tt) (longer-is_empty part (omega (arith, l)))
        (omega (arith, v))
      ∙ ap (λ (x : ℕ). good (x, length part)) v
      ∙ ap (λ (x : ℕ). good (atoms, x)) l)
  where
    below : (n m : ℕ) → n ≤ u64_max → n / m < 10 ^ 39
    below n m h = omega (arith, h, div-le_self n m)

good-inj : {A : Type 0} (d x y : A) → good x ≡ good y → x ≡ y
good-inj d x y e = ap (λ r. or_else d r) e
  where
    or_else : {A : Type 0} → A → Scaled A → A
    or_else d (good x) = x
    or_else d (bad e) = d

suc-zero : (d : ℕ) → (suc d == 0) ≡ false
suc-zero d = ground arith

guarded :
    (c : Bool) (n : ℕ) (f : ℕ → Scaled (List ℕ)) (s : List ℕ)
    → ((if c then bad overflow else good n) and_then f) ≡ good s
    → f n ≡ good s
unfolding ◌and_then◌
guarded true n f s e = ground arith
guarded false n f s e = e

printed :
    (atoms decimals : ℕ) (s : List ℕ)
    → atoms ≤ u64_max
    → atoms_to_ui_amount atoms decimals ≡ good s
    → parse_decimal s ≡ good (atoms, decimals)
unfolding atoms_to_ui_amount render fitting pow10
printed atoms zero s small e =
    let q : to_string atoms [] ≡ s =
      good-inj [] _ _ (guarded false 1 (λ _. good (to_string atoms [])) s e) in
    rw⁻¹ q (whole-read atoms small)
printed atoms (suc d) s small e =
    let text : ℕ → List ℕ =
      λ pow. to_string (atoms / pow) (46 ∷ decimal (39 + suc d) (suc d) (atoms % pow) []) in
    let z : (suc d == 0) ≡ false = suc-zero d in
    let q : text (10 ^ suc d) ≡ s = good-inj [] _ _ (
      subst (λ c. (if c then good (to_string atoms []) else good (text (10 ^ suc d))) ≡ good s) z
        (guarded (ltb u128_max (10 ^ suc d)) (10 ^ suc d) _ s e)) in
    rw⁻¹ q (point-read atoms (suc d) small (omega arith))

-- An amount that is a u64, and that `atoms_to_ui_amount` prints, is read back by
-- `ui_amount_to_atoms` as it was.
pub ui_amount_to_atoms-atoms_to_ui_amount :
    (atoms decimals : ℕ) (s : List ℕ)
    → atoms ≤ u64_max
    → atoms_to_ui_amount atoms decimals ≡ good s
    → ui_amount_to_atoms s decimals ≡ good atoms
ui_amount_to_atoms-atoms_to_ui_amount atoms decimals s small e =
    parsed atoms decimals s small (printed atoms decimals s small e)
