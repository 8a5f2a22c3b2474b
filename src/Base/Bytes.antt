-- ===== src/Base/Bytes.antt =====
-- Little-endian integers in a byte string.
use Prim.Native.Nat.{ℕ, zero, suc, ◌+◌, ◌*◌, ◌/◌, ◌%◌}
use mathlib.Core.List.{List, [], ◌∷◌}

module _ {ℓ} {A : Type ℓ} where
  abbrev pub length : List A → ℕ
  length [] = 0
  length (x ∷ xs) = suc (length xs)

  abbrev pub drop : ℕ → List A → List A
  drop zero xs = xs
  drop (suc n) [] = []
  drop (suc n) (x ∷ xs) = drop n xs

  abbrev pub take : ℕ → List A → List A
  take zero xs = []
  take (suc n) [] = []
  take (suc n) (x ∷ xs) = x ∷ take n xs

-- `uN::from_le_bytes` of the first `n` bytes; a missing byte reads as 0, and every reader has
-- checked the length before.
unfoldable pub from_le : ℕ → List ℕ → ℕ
from_le zero bs = 0
from_le (suc n) [] = 0
from_le (suc n) (b ∷ bs) = b + 256 * from_le n bs

unfoldable pub to_le : ℕ → ℕ → List ℕ
to_le zero v = []
to_le (suc n) v = (v % 256) ∷ to_le n (v / 256)

-- A field of an instruction's data, of one, two, four or eight bytes.
abbrev pub u8_at : ℕ → List ℕ → ℕ
u8_at i bs = from_le 1 (drop i bs)

abbrev pub u16_at : ℕ → List ℕ → ℕ
u16_at i bs = from_le 2 (drop i bs)

abbrev pub u32_at : ℕ → List ℕ → ℕ
u32_at i bs = from_le 4 (drop i bs)

abbrev pub u64_at : ℕ → List ℕ → ℕ
u64_at i bs = from_le 8 (drop i bs)
