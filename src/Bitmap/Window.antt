-- ===== src/Bitmap/Window.antt =====
-- The searches of the window, over a ring that wraps around.
pub mod Next
pub mod Prev
use native.Mathlib.Decide.{dec_lt}
use solana_orderbook.Base.{
  ℕ, ◌+◌, ◌-◌, ◌%◌, ◌≤◌, ◌<◌, ◌≡◌, refl, ap, subst, ◌∙◌, ◌⊎◌, inl, inr, min, Bool, true, false,
  Option, none, some, arith, Bool-cases, ltb, ltb→lt, ltb→ge, u32_mod, add32, sub32, sub64,
  add32_exact, sub32_exact, sub64_exact,
}
use solana_orderbook.Bitmap.{
  Bitmap, occupied, get, scan_up, scan_down, next_wrapped, next_in, next_at_or_after, prev_wrapped,
  prev_in, prev_at_or_before,
}
use solana_orderbook.Bitmap.Scan.{IsConsistent, IsLowest, IsHighest}
use solana_orderbook.Bitmap.Scan.Up.{scan_up-IsLowest}
use solana_orderbook.Bitmap.Scan.Down.{scan_down-IsHighest}

pub get_at : (b : Bitmap) (t p : ℕ) (v : Bool) → t % 8192 ≡ p → occupied b p ≡ v → get b t ≡ v
unfolding get
get_at b t p v e h = ap (occupied b) e ∙ h
