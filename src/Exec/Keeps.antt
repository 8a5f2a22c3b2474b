-- ===== src/Exec/Keeps.antt =====
-- Relations between the state before and after, one rule for each way to build an action.
use solana_orderbook.Base.{ℕ, zero, suc, ◌≡◌, subst, Bool, true, false, if◌then◌else◌}
use solana_orderbook.Exec.Errors.{Abort, ClobError}
use solana_orderbook.Exec.{
  Exec, Result, ok, err, pure, raise, fail, gets, lift, modify, continue, ◌>>=◌, Step, go_on, leave,
  again, loop,
}

-- What holds of the outcome of an action if it succeeds.
abbrev pub Post : {S A : Type 0} → (A → S → Type 0) → Result (A × S) → Type 0
Post Q (ok (a, s)) = Q a s
Post Q (err e) = Unit

pub Post-ok :
    {S A : Type 0} (Q : A → S → Type 0) {r : Result (A × S)} {a : A} {s : S}
    → Post Q r
    → r ≡ ok (a, s)
    → Q a s
Post-ok Q p e = subst (Post Q) e p

pub Post-continue :
    {S A B : Type 0} (Q : A → S → Type 0) (R : B → S → Type 0) (r : Result (A × S))
    (f : A → Exec S B)
    → Post Q r
    → ((a : A) (s : S) → Q a s → Post R (f a s))
    → Post R (continue r f)
Post-continue Q R (ok (a, s)) f p k = k a s p
Post-continue Q R (err e) f p k = tt

pub Post-weaken :
    {S A : Type 0} (Q R : A → S → Type 0) (r : Result (A × S))
    → Post Q r
    → ((a : A) (s : S) → Q a s → R a s)
    → Post R r
Post-weaken Q R (ok (a, s)) p k = k a s p
Post-weaken Q R (err e) p k = tt

pub Post-and :
    {S A : Type 0} (Q R : A → S → Type 0) (r : Result (A × S))
    → Post Q r
    → Post R r
    → Post (λ a s. Q a s × R a s) r
Post-and Q R (ok (a, s)) p q = (p, q)
Post-and Q R (err e) p q = tt

-- A hypothesis that does not depend on the outcome.
pub Post-imp :
    {S A : Type 0} (H : Type 0) (Q : A → S → Type 0) (r : Result (A × S))
    → (H → Post Q r)
    → Post (λ a s. H → Q a s) r
Post-imp H Q (ok (a, s)) k = k
Post-imp H Q (err e) k = tt

-- A preorder on states.
pub record Preorder (S : Type 0) : Type 1 where
  pub Rel : S → S → Type 0
  pub rel_refl : (s : S) → Rel s s
  pub rel_trans : (s t u : S) → Rel s t → Rel t u → Rel s u

-- Whenever `m` succeeds, the new state is related to the old one.
pub record Keeps {S A : Type 0} (P : Preorder S) (m : Exec S A) : Type 0 where
  pub holds : (s : S) → Post (λ _ t. P.Rel s t) (m s)

module _ {S A : Type 0} {P : Preorder S} where
  pub Keeps-pure : (x : A) → Keeps P (pure x)
  unfolding pure
  Keeps-pure x = record { holds = λ s. P.rel_refl s }

  pub Keeps-raise : (e : Abort) → Keeps P (raise {A = A} e)
  unfolding raise
  Keeps-raise x = record { holds = λ s. tt }

  pub Keeps-fail : (e : ClobError) → Keeps P (fail {A = A} e)
  unfolding fail
  Keeps-fail x = record { holds = λ s. tt }

  pub Keeps-gets : (look : S → A) → Keeps P (gets look)
  unfolding gets
  Keeps-gets look = record { holds = λ s. P.rel_refl s }

  pub Keeps-lift : (r : Result A) → Keeps P (lift r)
  unfolding lift
  Keeps-lift (ok a) = record { holds = λ s. P.rel_refl s }
  Keeps-lift (err e) = record { holds = λ s. tt }

  pub Keeps-if : (b : Bool) (m n : Exec S A) → Keeps P m → Keeps P n → Keeps P (if b then m else n)
  Keeps-if true m n km kn = km
  Keeps-if false m n km kn = kn

module _ {S : Type 0} {P : Preorder S} where
  pub Keeps-modify : (f : S → S) → ((s : S) → P.Rel s (f s)) → Keeps P (modify f)
  unfolding modify
  Keeps-modify f h = record { holds = h }

module _ {S A B : Type 0} {P : Preorder S} where
  pub Keeps-bind :
      (first : Exec S A) (rest : A → Exec S B)
      → Keeps P first
      → ((x : A) → Keeps P (rest x))
      → Keeps P (first >>= rest)
  unfolding ◌>>=◌
  Keeps-bind first rest k l = record {
    holds = λ s.
        Post-continue (λ _ t. P.Rel s t) (λ _ u. P.Rel s u) (first s) rest (k.holds s)
          λ x t p.
            Post-weaken (λ _ u. P.Rel t u) (λ _ u. P.Rel s u) (rest x t) ((l x).holds t)
              λ _ u q. P.rel_trans s t u p q;
  }

module _ {S V A : Type 0} {P : Preorder S} where
  Keeps-again : (k : V → Exec S A) (r : Step V A) → ((v : V) → Keeps P (k v)) → Keeps P (again k r)
  unfolding again
  Keeps-again k (go_on v) h = h v
  Keeps-again k (leave a) h = Keeps-pure a

  pub Keeps-loop :
      (n : ℕ) (body : V → Exec S (Step V A)) (v : V)
      → ((w : V) → Keeps P (body w))
      → Keeps P (loop n body v)
  unfolding loop
  Keeps-loop zero body v h = Keeps-raise _
  Keeps-loop (suc n) body v h =
      Keeps-bind (body v) (again (loop n body)) (h v)
        λ r. Keeps-again (loop n body) r λ w. Keeps-loop n body w h

pub ruleset keeps_rules =
    (Keeps-pure, Keeps-raise, Keeps-fail, Keeps-gets, Keeps-lift, Keeps-if, Keeps-bind, Keeps-loop)
