-- ===== src/Base/Tables.antt =====
-- A fixed table is a function from its indices; a write changes one place.
use Prim.Native.Nat.{ℕ, zero, suc, ◌+◌, ◌≤◌, ◌<◌}
use mathlib.Core.Path.{◌≡◌, refl, sym, ap}
use mathlib.Core.Logic.{◌≢◌}
use native.Mathlib.Omega.{arith}
use native.Mathlib.Decide.{ℕ_discrete}
use solana_orderbook.Base.Tests.{◌==◌, if◌then◌else◌}

unfoldable pub update {ℓ} : {A : Type ℓ} → (ℕ → A) → ℕ → A → ℕ → A
update f i v j = if j == i then v else f j

module _ {ℓ} {A : Type ℓ} where
  pub update_self : (f : ℕ → A) (i : ℕ) (v : A) → update f i v i ≡ v
  unfolding update
  update_self f i v = ground arith

  pub update_ne : (f : ℕ → A) (i j : ℕ) (v : A) → j ≢ i → update f i v j ≡ f j
  unfolding update
  update_ne f i j v h = ground arith

-- f 0 + … + f (n - 1).
unfoldable pub sum_below : ℕ → (ℕ → ℕ) → ℕ
sum_below zero f = 0
sum_below (suc n) f = sum_below n f + f n

pub sum_below-zero : (n : ℕ) (f : ℕ → ℕ) → ((j : ℕ) → f j ≡ 0) → sum_below n f ≡ 0
unfolding sum_below
sum_below-zero zero f h = refl
sum_below-zero (suc n) f h = omega (arith, sum_below-zero n f h, h n)

pub sum_below-same :
    (n : ℕ) (f g : ℕ → ℕ) → ((j : ℕ) → j < n → g j ≡ f j) → sum_below n g ≡ sum_below n f
unfolding sum_below
sum_below-same zero f g same = refl
sum_below-same (suc n) f g same =
    omega (arith, sum_below-same n f g (λ j h. same j (omega arith)), same n (omega arith))

-- Two tables that differ at one index below n differ in sum by that entry.
pub sum_below-change :
    (n : ℕ) (f g : ℕ → ℕ) (i : ℕ)
    → i < n
    → ((j : ℕ) → j ≢ i → g j ≡ f j)
    → sum_below n g + f i ≡ sum_below n f + g i
unfolding sum_below
sum_below-change zero f g i h same = absurd (omega arith)
sum_below-change (suc n) f g i h same = elim (ℕ_discrete i n) [
  | yes e ↦ rw e (omega (arith, sum_below-same n f g (λ j k. same j (omega arith))))
  | no m ↦ omega (arith, sum_below-change n f g i (omega arith) same, same n (λ e. m (sym e)))
]

pub sum_below-ge : (n : ℕ) (f : ℕ → ℕ) (i : ℕ) → i < n → f i ≤ sum_below n f
unfolding sum_below
sum_below-ge zero f i h = absurd (omega arith)
sum_below-ge (suc n) f i h = elim (ℕ_discrete i n) [
  | yes e ↦ rw e (omega arith)
  | no m ↦ omega (arith, sum_below-ge n f i (omega arith))
]

-- A write to a table, measured by `m`.
pub sum_below-update {ℓ} :
    {A : Type ℓ} (m : A → ℕ) (n : ℕ) (f : ℕ → A) (i : ℕ) (v : A)
    → i < n
    → sum_below n (λ j. m (update f i v j)) + m (f i) ≡ sum_below n (λ j. m (f j)) + m v
sum_below-update m n f i v h = omega (
  arith,
  sum_below-change n (λ j. m (f j)) (λ j. m (update f i v j)) i h
      (λ j k. ap m (update_ne f i j v k)),
  ap m (update_self f i v),
)
