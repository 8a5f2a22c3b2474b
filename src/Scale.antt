-- ===== src/Scale.antt =====
-- sdk/rust/src/scale.rs: conversions between atoms or ticks and decimal strings, on u128. A string is
-- the list of its characters' code points.
pub mod Digits
pub mod Decimals
pub mod Rounding
use solana_orderbook.Base.{
  ℕ, zero, suc, ◌+◌, ◌-◌, ◌*◌, ◌/◌, ◌%◌, ◌^◌, min, Bool, true, false, ◌&&◌, ◌||◌, Option, none,
  some, List, [], ◌∷◌, ◌++◌, ◌==◌, ltb, leb, if◌then◌else◌, u32_max, u64_max,
}
use solana_orderbook.Base.Bytes.{length}

pub data RoundingMode : Type 0 where
  down up nearest : RoundingMode

pub data ScaleError : Type 0 where
  malformed too_precise overflow divide_by_zero : ScaleError

pub data Scaled (A : Type 0) : Type 0 where
  good : A → Scaled A
  bad : ScaleError → Scaled A

infixl 5 ◌and_then◌
unfoldable pub ◌and_then◌ : {A B : Type 0} → Scaled A → (A → Scaled B) → Scaled B
◌and_then◌ (good a) f = f a
◌and_then◌ (bad e) f = bad e

abbrev pub u128_max : ℕ
u128_max = 340282366920938463463374607431768211455

-- `checked_mul` and `checked_add`, with `ok_or(ScaleError::Overflow)`.
unfoldable pub fitting : ℕ → ℕ → Scaled ℕ
fitting most n = if ltb most n then bad overflow else good n

unfoldable pub rounds_up : RoundingMode → ℕ → ℕ → Bool
rounds_up down remainder denominator = false
rounds_up up remainder denominator = ltb 0 remainder
rounds_up nearest remainder denominator = leb denominator (min (remainder * 2) u128_max)

unfoldable pub round : RoundingMode → ℕ → ℕ → Scaled ℕ
unfolding rounds_up fitting
round mode prod denominator =
    if rounds_up mode (prod % denominator) denominator
    then fitting u128_max (prod / denominator + 1)
    else good (prod / denominator)

unfoldable pub mul_div : ℕ → ℕ → ℕ → RoundingMode → Scaled ℕ
unfolding round fitting ◌and_then◌
mul_div x y denominator mode =
    if denominator == 0
    then bad divide_by_zero
    else fitting u128_max (x * y) and_then λ prod. round mode prod denominator

unfoldable pub pow10 : ℕ → Scaled ℕ
unfolding fitting
pow10 exp = fitting u128_max (10 ^ exp)

-- The digits of a number, at least `width` of them, before `rest`. A u128 has at most 39.
unfoldable pub decimal : ℕ → ℕ → ℕ → List ℕ → List ℕ
decimal zero width v rest = rest
decimal (suc most) width v rest =
    let all = decimal most (width - 1) (v / 10) ((48 + v % 10) ∷ rest) in
    if (width == 0) && (v == 0) then rest else all

unfoldable pub to_string : ℕ → List ℕ → List ℕ
unfolding decimal
to_string v rest = decimal 39 1 v rest

-- `{}.{:0width$}`.
unfoldable pub render : ℕ → ℕ → Scaled (List ℕ)
unfolding pow10 decimal to_string ◌and_then◌
render value decimals = pow10 decimals and_then λ pow.
    if decimals == 0
    then good (to_string value [])
    else good (to_string (value / pow) (46 ∷ decimal (39 + decimals) decimals (value % pow) []))

-- `char::is_whitespace`.
unfoldable pub is_whitespace : ℕ → Bool
is_whitespace c =
    (leb 9 c && leb c 13)
    || ((c == 32)
        || ((c == 133)
            || ((c == 160)
                || ((c == 5760)
                    || ((leb 8192 c && leb c 8202)
                        || ((c == 8232)
                            || ((c == 8233) || ((c == 8239) || ((c == 8287) || (c == 12288))))))))))

unfoldable pub trim_start : List ℕ → List ℕ
trim_start [] = []
trim_start (c ∷ cs) = if is_whitespace c then trim_start cs else c ∷ cs

unfoldable pub keep : ℕ → List ℕ → List ℕ
keep c [] = if is_whitespace c then [] else c ∷ []
keep c (x ∷ xs) = c ∷ (x ∷ xs)

unfoldable pub trim_end : List ℕ → List ℕ
trim_end [] = []
trim_end (c ∷ cs) = keep c (trim_end cs)

unfoldable pub trim : List ℕ → List ℕ
unfolding trim_start trim_end keep
trim s = trim_end (trim_start s)

-- `split_once('.').unwrap_or((s, ""))`.
unfoldable pub split_point : List ℕ → List ℕ × List ℕ
split_point [] = ([], [])
split_point (c ∷ cs) =
    let rest = split_point cs in if c == 46 then ([], cs) else (c ∷ rest.0, rest.1)

-- The digits read into the mantissa.
unfoldable pub read_digits : ℕ → List ℕ → Scaled ℕ
unfolding ◌and_then◌ fitting
read_digits mantissa [] = good mantissa
read_digits mantissa (c ∷ cs) =
    if leb 48 c && leb c 57
    then (fitting u128_max (mantissa * 10)
        and_then (λ m. fitting u128_max (m + (c - 48)))
        and_then λ m. read_digits m cs)
    else bad malformed

unfoldable pub is_empty : List ℕ → Bool
is_empty [] = true
is_empty (c ∷ cs) = false

-- The mantissa, and the number of digits after the point.
unfoldable pub parse_decimal : List ℕ → Scaled (ℕ × ℕ)
unfolding trim split_point read_digits is_empty ◌and_then◌
parse_decimal s =
    let (int_part, frac_part) = split_point (trim s) in
    if is_empty int_part && is_empty frac_part
    then bad malformed
    else read_digits 0 (int_part ++ frac_part) and_then λ mantissa.
        good (mantissa, length frac_part)

unfoldable pub atoms_to_ui_amount : ℕ → ℕ → Scaled (List ℕ)
unfolding render
atoms_to_ui_amount atoms decimals = render atoms decimals

unfoldable pub ui_amount_to_atoms : List ℕ → ℕ → Scaled ℕ
unfolding parse_decimal pow10 fitting ◌and_then◌
ui_amount_to_atoms ui_amount decimals = parse_decimal ui_amount and_then λ (mantissa, frac_digits).
    if ltb decimals frac_digits
    then bad too_precise
    else (pow10 (decimals - frac_digits)
        and_then (λ scale. fitting u128_max (mantissa * scale))
        and_then λ atoms. fitting u64_max atoms)

unfoldable pub tick_to_ui_price :
    (tick tick_size base_lot_size base_decimals quote_decimals out_decimals : ℕ) → Scaled (List ℕ)
unfolding pow10 fitting mul_div render ◌and_then◌
tick_to_ui_price tick tick_size base_lot_size base_decimals quote_decimals out_decimals =
    fitting u128_max (tick * tick_size) and_then λ quote_atoms_per_lot.
    pow10 base_decimals and_then λ b. pow10 out_decimals and_then λ o.
    fitting u128_max (b * o) and_then λ scale. pow10 quote_decimals and_then λ q.
    fitting u128_max (base_lot_size * q) and_then λ denominator.
    mul_div quote_atoms_per_lot scale denominator nearest and_then λ scaled.
    render scaled out_decimals

unfoldable pub ui_price_to_tick :
    List ℕ → (tick_size base_lot_size base_decimals quote_decimals : ℕ) → RoundingMode → Scaled ℕ
unfolding parse_decimal pow10 fitting mul_div ◌and_then◌
ui_price_to_tick ui_price tick_size base_lot_size base_decimals quote_decimals mode =
    parse_decimal ui_price and_then λ (mantissa, frac_digits). pow10 quote_decimals and_then λ q.
    fitting u128_max (base_lot_size * q) and_then λ numerator. pow10 base_decimals and_then λ b.
    fitting u128_max (tick_size * b) and_then λ sized. pow10 frac_digits and_then λ f.
    fitting u128_max (sized * f) and_then λ denominator.
    mul_div mantissa numerator denominator mode and_then λ tick. fitting u32_max tick
