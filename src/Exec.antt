-- ===== src/Exec.antt =====
-- Handlers as state passing with failure. An instruction that fails leaves no state behind: the
-- runtime discards every account write of the transaction.
pub mod Errors
pub mod Keeps
pub mod Triples
pub mod Runs
use solana_orderbook.Base.{ℕ, zero, suc, ◌≡◌, refl, Bool, true, false, Option, none, some}
use solana_orderbook.Exec.Errors.{Abort, ClobError, clob, out_of_compute}

pub data Result (A : Type 0) : Type 0 where
  ok : A → Result A
  err : Abort → Result A

abbrev pub Exec : Type 0 → Type 0 → Type 0
Exec S A = S → Result (A × S)

module _ {S A : Type 0} where
  unfoldable pub pure : A → Exec S A
  pure a s = ok (a, s)

  unfoldable pub raise : Abort → Exec S A
  raise e s = err e

  unfoldable pub fail : ClobError → Exec S A
  fail e s = err (clob e)

  unfoldable pub gets : (S → A) → Exec S A
  gets f s = ok (f s, s)

  lift_at : Result A → Exec S A
  lift_at (ok a) s = ok (a, s)
  lift_at (err e) s = err e

  unfoldable pub lift : Result A → Exec S A
  unfolding lift_at
  lift r = lift_at r

-- The next step of a computation that reads no state.
abbrev pub continue_with : {A B : Type 0} → Result A → (A → Result B) → Result B
continue_with (ok a) f = f a
continue_with (err e) f = err e

unfoldable pub modify : {S : Type 0} → (S → S) → Exec S (Unit {0})
modify f s = ok (tt, f s)

module _ {S A B : Type 0} where
  abbrev pub continue : Result (A × S) → (A → Exec S B) → Result (B × S)
  continue (ok (a, s)) f = f a s
  continue (err e) f = err e

  infixl 5 ◌>>=◌ ◌>>◌
  unfoldable pub ◌>>=◌ : (first : Exec S A) (rest : A → Exec S B) → Exec S B
  ◌>>=◌ first rest s = continue (first s) rest

  abbrev pub ◌>>◌ : (first : Exec S A) (last : Exec S B) → Exec S B
  first >> last = first >>= λ _. last

-- One round of a loop: go on with new loop variables, or leave with a result.
pub data Step (V A : Type 0) : Type 0 where
  go_on : V → Step V A
  leave : A → Step V A

-- A loop takes the rounds that the compute budget still pays for. Running out aborts the
-- transaction.
module _ {S V A : Type 0} where
  again : (V → Exec S A) → Step V A → Exec S A
  again k (go_on v) = k v
  again k (leave a) = pure a

  unfoldable pub loop : ℕ → (V → Exec S (Step V A)) → V → Exec S A
  unfolding again
  loop zero body v = raise out_of_compute
  loop (suc n) body v = body v >>= again (loop n body)
