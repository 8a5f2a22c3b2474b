-- ===== src/Exec/Triples.antt =====
-- Rules for what holds of the outcome of an action, by the way the action is built.
use solana_orderbook.Base.{ℕ, zero, suc, ◌≡◌, refl, Bool, true, false, if◌then◌else◌}
use solana_orderbook.Exec.Errors.{Abort, ClobError}
use solana_orderbook.Exec.{
  Exec, Result, ok, err, pure, raise, fail, gets, lift, ◌>>=◌, Step, go_on, leave, again, loop,
}
use solana_orderbook.Exec.Keeps.{Post, Post-and, Post-continue, Post-weaken}

-- If `m` succeeds on `s`, its result and the new state satisfy `Q`.
pub record Yields {S A : Type 0} (Q : A → S → Type 0) (m : Exec S A) (s : S) : Type 0 where
  pub outcome : Post Q (m s)

module _ {S A B : Type 0} {R : B → S → Type 0} where
  pub Yields-bind :
      (Q : A → S → Type 0) (m : Exec S A) (f : A → Exec S B) (s : S)
      → Yields Q m s
      → ((a : A) (t : S) → Q a t → Yields R (f a) t)
      → Yields R (m >>= f) s
  unfolding ◌>>=◌
  Yields-bind Q m f s p k = record {
    outcome = Post-continue Q R (m s) f p.outcome λ a t q. (k a t q).outcome;
  }

  -- Reading the state.
  pub Yields-gets :
      (g : S → A) (f : A → Exec S B) (s : S) → Yields R (f (g s)) s → Yields R (gets g >>= f) s
  unfolding ◌>>=◌ gets
  Yields-gets g f s p = record { outcome = p.outcome }

  -- A result that does not depend on the state.
  pub Yields-lift :
      (r : Result A) (f : A → Exec S B) (s : S)
      → ((a : A) → r ≡ ok a → Yields R (f a) s)
      → Yields R (lift r >>= f) s
  unfolding ◌>>=◌ lift
  Yields-lift (ok a) f s k = record { outcome = (k a refl).outcome }
  Yields-lift (err e) f s k = record { outcome = tt }

module _ {S A : Type 0} {Q : A → S → Type 0} where
  pub Yields-weaken :
      (R : A → S → Type 0) (m : Exec S A) (s : S)
      → Yields R m s
      → ((a : A) (t : S) → R a t → Q a t)
      → Yields Q m s
  Yields-weaken R m s y k = record { outcome = Post-weaken R Q (m s) y.outcome k }

  -- Two results of the same action.
  pub Yields-and :
      (R : A → S → Type 0) (m : Exec S A) (s : S)
      → Yields Q m s
      → Yields R m s
      → Yields (λ a t. Q a t × R a t) m s
  Yields-and R m s p q = record { outcome = Post-and Q R (m s) p.outcome q.outcome }

  pub Yields-lifted : (r : Result A) (s : S) → ((a : A) → r ≡ ok a → Q a s) → Yields Q (lift r) s
  unfolding lift
  Yields-lifted (ok a) s k = record { outcome = k a refl }
  Yields-lifted (err e) s k = record { outcome = tt }

  -- What does not depend on the outcome.
  pub Yields-always : (m : Exec S A) (s : S) → ((a : A) (t : S) → Q a t) → Yields Q m s
  Yields-always m s k = record { outcome = always (m s) }
    where
      always : (r : Result (A × S)) → Post Q r
      always (ok (a, t)) = k a t
      always (err e) = tt

  pub Yields-pure : (a : A) (s : S) → Q a s → Yields Q (pure a) s
  unfolding pure
  Yields-pure a s q = record { outcome = q }

  pub Yields-fail : (e : ClobError) (s : S) → Yields Q (fail e) s
  unfolding fail
  Yields-fail e s = record { outcome = tt }

  pub Yields-raise : (e : Abort) (s : S) → Yields Q (raise e) s
  unfolding raise
  Yields-raise e s = record { outcome = tt }

  pub Yields-if :
      (c : Bool) (m n : Exec S A) (s : S)
      → (c ≡ true → Yields Q m s)
      → (c ≡ false → Yields Q n s)
      → Yields Q (if c then m else n) s
  Yields-if true m n s p q = p refl
  Yields-if false m n s p q = q refl

-- Where a loop may stand after a round.
abbrev pub Ends : {S V A : Type 0} → (V → S → Type 0) → (A → S → Type 0) → Step V A → S → Type 0
Ends I Q (go_on v) s = I v s
Ends I Q (leave a) s = Q a s

module _ {S V A : Type 0} (I : V → S → Type 0) {Q : A → S → Type 0} where
  Yields-again :
      (k : V → Exec S A) (r : Step V A) (s : S)
      → Ends I Q r s
      → ((v : V) → I v s → Yields Q (k v) s)
      → Yields Q (again k r) s
  unfolding again
  Yields-again k (go_on v) s e h = h v e
  Yields-again k (leave a) s e h = Yields-pure a s e

  -- An invariant that every round keeps holds until the loop ends.
  pub Yields-loop :
      (n : ℕ) (body : V → Exec S (Step V A)) (v : V) (s : S)
      → ((w : V) (t : S) → I w t → Yields (Ends I Q) (body w) t)
      → I v s
      → Yields Q (loop n body v) s
  unfolding loop raise
  Yields-loop zero body v s h i = record { outcome = tt }
  Yields-loop (suc n) body v s h i =
      Yields-bind (Ends I Q) (body v) (again (loop n body)) s (h v s i)
        λ r t e. Yields-again (loop n body) r t e λ w j. Yields-loop n body w t h j

pub ruleset yields_rules = (Yields-gets, Yields-pure, Yields-fail, Yields-if)
