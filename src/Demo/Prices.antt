-- ===== src/Demo/Prices.antt =====
-- The price scaling of the SDK.
use solana_orderbook.Base.{ℕ, ◌≡◌, refl, List, [], ◌∷◌, arith}
use solana_orderbook.Scale.{
  good, nearest, ◌and_then◌, fitting, rounds_up, round, mul_div, pow10, decimal, to_string, render,
  atoms_to_ui_amount, ui_amount_to_atoms,
}
use solana_orderbook.Scale.Rounding.{Rounds, mul_div-Rounds}
use solana_orderbook.Scale.Decimals.{ui_amount_to_atoms-atoms_to_ui_amount}

-- 20 thirds, to the nearest.
thirds_ok : mul_div 4 5 3 nearest ≡ good 7
unfolding mul_div round rounds_up fitting ◌and_then◌
thirds_ok = refl

mul_div-Rounds_example : Rounds nearest 20 3 7
mul_div-Rounds_example = mul_div-Rounds 4 5 3 7 nearest (omega arith) thirds_ok

-- 1.05
abbrev shown : List ℕ
shown = 49 ∷ (46 ∷ (48 ∷ (53 ∷ [])))

shown_ok : atoms_to_ui_amount 105 2 ≡ good shown
unfolding atoms_to_ui_amount render pow10 fitting ◌and_then◌ to_string decimal
shown_ok = refl

ui_amount_to_atoms-atoms_to_ui_amount_example : ui_amount_to_atoms shown 2 ≡ good 105
ui_amount_to_atoms-atoms_to_ui_amount_example =
    ui_amount_to_atoms-atoms_to_ui_amount 105 2 shown (omega arith) shown_ok
