-- ===== src/Exec/Runs.antt =====
-- Actions that succeed.
use solana_orderbook.Base.{◌≡◌, refl, subst, sym, Bool, true, false, if◌then◌else◌}
use solana_orderbook.Exec.{Exec, Result, ok, err, pure, gets, continue, ◌>>=◌}
use solana_orderbook.Exec.Keeps.{Post}
use solana_orderbook.Exec.Triples.{Yields}

-- The action has succeeded, and the outcome is as `Q` says.
abbrev pub Done : {S A : Type 0} → (A → S → Type 0) → Result (A × S) → Type 0
Done Q (ok (a, s)) = Q a s
Done Q (err e) = ⊥

-- `m` succeeds on `s`, and its result and the new state satisfy `Q`.
pub record Runs {S A : Type 0} (Q : A → S → Type 0) (m : Exec S A) (s : S) : Type 0 where
  pub outcome : Done Q (m s)

Done-continue :
    {S A B : Type 0} (Q : A → S → Type 0) (R : B → S → Type 0) (r : Result (A × S))
    (f : A → Exec S B)
    → Done Q r
    → ((a : A) (s : S) → Q a s → Done R (f a s))
    → Done R (continue r f)
Done-continue Q R (ok (a, s)) f p k = k a s p
Done-continue Q R (err e) f p k = p

Done-and :
    {S A : Type 0} (Q R : A → S → Type 0) (r : Result (A × S))
    → Done Q r
    → Post R r
    → Done (λ a s. Q a s × R a s) r
Done-and Q R (ok (a, s)) p q = (p, q)
Done-and Q R (err e) p q = p

Done-weaken :
    {S A : Type 0} (Q R : A → S → Type 0) (r : Result (A × S))
    → Done Q r
    → ((a : A) (s : S) → Q a s → R a s)
    → Done R r
Done-weaken Q R (ok (a, s)) p k = k a s p
Done-weaken Q R (err e) p k = p

module _ {S A : Type 0} {Q : A → S → Type 0} where
  pub Runs-weaken :
      (R : A → S → Type 0) (m : Exec S A) (s : S)
      → Runs R m s
      → ((a : A) (t : S) → R a t → Q a t)
      → Runs Q m s
  Runs-weaken R m s y k = record { outcome = Done-weaken R Q (m s) y.outcome k }

  pub Runs-ok : (m : Exec S A) (s t : S) (a : A) → m s ≡ ok (a, t) → Q a t → Runs Q m s
  Runs-ok m s t a e q = record { outcome = subst (Done Q) (sym e) q }

  pub Runs-pure : (a : A) (s : S) → Q a s → Runs Q (pure a) s
  unfolding pure
  Runs-pure a s q = record { outcome = q }

  pub Runs-if :
      (c : Bool) (m n : Exec S A) (s : S)
      → (c ≡ true → Runs Q m s)
      → (c ≡ false → Runs Q n s)
      → Runs Q (if c then m else n) s
  Runs-if true m n s p q = p refl
  Runs-if false m n s p q = q refl

  -- What a success yields besides.
  pub Runs-and :
      (R : A → S → Type 0) (m : Exec S A) (s : S)
      → Runs Q m s
      → Yields R m s
      → Runs (λ a t. Q a t × R a t) m s
  Runs-and R m s p q = record { outcome = Done-and Q R (m s) p.outcome q.outcome }

module _ {S A B : Type 0} {R : B → S → Type 0} where
  pub Runs-bind :
      (Q : A → S → Type 0) (m : Exec S A) (f : A → Exec S B) (s : S)
      → Runs Q m s
      → ((a : A) (t : S) → Q a t → Runs R (f a) t)
      → Runs R (m >>= f) s
  unfolding ◌>>=◌
  Runs-bind Q m f s p k = record {
    outcome = Done-continue Q R (m s) f p.outcome λ a t q. (k a t q).outcome;
  }

  pub Runs-gets :
      (g : S → A) (f : A → Exec S B) (s : S) → Runs R (f (g s)) s → Runs R (gets g >>= f) s
  unfolding ◌>>=◌ gets
  Runs-gets g f s p = record { outcome = p.outcome }
