-- ===== src/Ledger/Settle.antt =====
-- The ledger of a trade: what the makers give and what they gain.
use solana_orderbook.Base.{
  ℕ, ◌+◌, ◌≤◌, ◌<◌, ◌≡◌, refl, subst, inl, inr, Bool-cases, arith, ltb, ltb→lt, u64_mod, add64,
  sub64, ◌%◌,
}
use solana_orderbook.Exec.{Result, ok, err, raise, gets, lift, modify, continue, ◌>>=◌}
use solana_orderbook.Exec.Keeps.{Post}
use solana_orderbook.State.{Side, bid, ask}
use solana_orderbook.State.Seats.{Seat}
use solana_orderbook.Book.{Book, with_seat, settle_seat}
use solana_orderbook.Book.Take.{settle_maker}
use solana_orderbook.Ledger.{
  base_of, quote_of, total_base, total_quote, total_base-with_seat, total_quote-with_seat,
  total_base-ge, total_quote-ge,
}
use solana_orderbook.Ledger.Conserves.{Conserves}

-- A total that pays an amount out, and one that takes it in.
pub record Gives (before after amount : ℕ) : Type 0 where
  pub le : after + amount ≤ before
  pub eq : (after + amount) % u64_mod ≡ before % u64_mod

pub record Gains (before after amount : ℕ) : Type 0 where
  pub le : after ≤ before + amount
  pub eq : after % u64_mod ≡ (before + amount) % u64_mod

-- The makers on one side of the book have delivered what they sold and hold what they were paid.
-- The equations are modulo 2^64 and the bounds without it, so an equation is exact where the total
-- fits a u64. (Credits wrap: above that an atom may be lost, never made.)
abbrev pub Settled : Side → ℕ → ℕ → Book → Book → Type 0
Settled ask base quote b t =
    Gives (total_base b) (total_base t) base × Gains (total_quote b) (total_quote t) quote
Settled bid base quote b t =
    Gains (total_base b) (total_base t) base × Gives (total_quote b) (total_quote t) quote

pub Gives-zero : (n : ℕ) → Gives n n 0
Gives-zero n = record { le = omega arith; eq = omega arith }

pub Gains-zero : (n : ℕ) → Gains n n 0
Gains-zero n = record { le = omega arith; eq = omega arith }

pub Gives-add : (a b c m n : ℕ) → Gives a b m → Gives b c n → Gives a c (m + n)
Gives-add a b c m n p q = record { le = omega (arith, p.le, q.le); eq = omega (arith, p.eq, q.eq) }

pub Gains-add : (a b c m n : ℕ) → Gains a b m → Gains b c n → Gains a c (m + n)
Gains-add a b c m n p q = record { le = omega (arith, p.le, q.le); eq = omega (arith, p.eq, q.eq) }

pub Settled-zero : (s : Side) (b : Book) → Settled s 0 0 b b
Settled-zero bid b = (Gains-zero _, Gives-zero _)
Settled-zero ask b = (Gives-zero _, Gains-zero _)

pub Settled-add :
    (s : Side) (m n m' n' : ℕ) (b c d : Book)
    → Settled s m n b c
    → Settled s m' n' c d
    → Settled s (m + m') (n + n') b d
Settled-add bid m n m' n' b c d (p, q) (p', q') =
    (Gains-add _ _ _ m m' p p', Gives-add _ _ _ n n' q q')
Settled-add ask m n m' n' b c d (p, q) (p', q') =
    (Gives-add _ _ _ m m' p p', Gains-add _ _ _ n n' q q')

-- A change that conserves funds settles nothing.
Conserves-Settled : (s : Side) (b c : Book) → Conserves b c → Settled s 0 0 b c
Conserves-Settled bid b c k = (
  record { le = omega (arith, k.base_le); eq = omega (arith, k.base_eq) },
  record { le = omega (arith, k.quote_le); eq = omega (arith, k.quote_eq) },
)
Conserves-Settled ask b c k = (
  record { le = omega (arith, k.base_le); eq = omega (arith, k.base_eq) },
  record { le = omega (arith, k.quote_le); eq = omega (arith, k.quote_eq) },
)

pub Settled-Conserves :
    (s : Side) (m n : ℕ) (b c d : Book) → Settled s m n b c → Conserves c d → Settled s m n b d
Settled-Conserves s m n b c d p k =
    subst (λ (x : ℕ). Settled s x n b d) (omega arith)
      (subst (λ (x : ℕ). Settled s (m + 0) x b d) (omega arith)
        (Settled-add s m n 0 0 b c d p (Conserves-Settled s c d k)))

-- One seat's balance replaced.
give_at :
    (sum sum' old new n : ℕ)
    → sum' + old ≡ sum + new
    → old ≤ sum
    → Gives old new n
    → Gives sum sum' n
give_at sum sum' old new n e small g = record { le = omega (arith, g.le); eq = omega (arith, g.eq) }

gain_at :
    (sum sum' old new n : ℕ)
    → sum' + old ≡ sum + new
    → old ≤ sum
    → Gains old new n
    → Gains sum sum' n
gain_at sum sum' old new n e small g = record { le = omega (arith, g.le); eq = omega (arith, g.eq) }

module _ (base notional : ℕ) (s t : Seat) where
  ask-settle_maker :
      settle_maker ask base notional s ≡ ok t
      → Gives (base_of s) (base_of t) base × Gains (quote_of s) (quote_of t) notional
  unfolding settle_maker add64 sub64
  ask-settle_maker e = (
    record { le = ground arith; eq = ground arith },
    record { le = ground arith; eq = ground arith },
  )

  bid-settle_maker :
      settle_maker bid base notional s ≡ ok t
      → Gains (base_of s) (base_of t) base × Gives (quote_of s) (quote_of t) notional
  unfolding settle_maker add64 sub64
  bid-settle_maker e = (
    record { le = ground arith; eq = ground arith },
    record { le = ground arith; eq = ground arith },
  )

pub settle_maker-Settled :
    (side : Side) (base notional i : ℕ) (s : Seat) (b : Book)
    → i < 128
    → settle_maker side base notional (b.seats i) ≡ ok s
    → Settled side base notional b (with_seat i s b)
settle_maker-Settled bid base notional i s b small e =
    let (p, q) = bid-settle_maker base notional (b.seats i) s e in
    (
      gain_at _ _ _ _ base (total_base-with_seat i s b small) (total_base-ge i b small) p,
      give_at _ _ _ _ notional (total_quote-with_seat i s b small) (total_quote-ge i b small) q,
    )
settle_maker-Settled ask base notional i s b small e =
    let (p, q) = ask-settle_maker base notional (b.seats i) s e in
    (
      give_at _ _ _ _ base (total_base-with_seat i s b small) (total_base-ge i b small) p,
      gain_at _ _ _ _ notional (total_quote-with_seat i s b small) (total_quote-ge i b small) q,
    )

-- What holds after a change of one seat's balances.
module _ (R : Book → Type 0) (i : ℕ) (f : Seat → Result Seat) (b : Book) where
  written :
      (r : Result Seat)
      → f (b.seats i) ≡ r
      → ((s : Seat) → f (b.seats i) ≡ ok s → R (with_seat i s b))
      → Post (λ _ t. R t) (continue (lift r b) (λ s. modify (with_seat i s)))
  unfolding lift modify
  written (ok s) e h = h s e
  written (err x) e h = tt

  pub Post-settle_seat :
      ((s : Seat) → i < 128 → f (b.seats i) ≡ ok s → R (with_seat i s b))
      → Post (λ _ t. R t) (settle_seat i f b)
  unfolding settle_seat ◌>>=◌ gets raise
  Post-settle_seat h = elim (Bool-cases (ltb i 128)) [
    | inl e ↦ rw e (written (f (b.seats i)) refl λ s. h s (ltb→lt i 128 e))
    | inr e ↦ rw e tt
  ]
