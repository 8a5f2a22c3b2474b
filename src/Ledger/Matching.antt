-- ===== src/Ledger/Matching.antt =====
-- The running result of `take` of program/src/state.rs as an account of the trade.
use native.Mathlib.Nat.{mul-le-mul, mul-le-mul_left, mul-le-mul_right, mul-add, mul_assoc}
use solana_orderbook.Base.{ℕ, ◌+◌, ◌*◌, ◌≤◌, ◌≡◌, ◌≢◌, ◌∙◌, arith, u64_max, mul64_exact}
use solana_orderbook.State.{Side, bid, ask, opposite, TakeParams}
use solana_orderbook.State.Header.{Market, base_atoms}
use solana_orderbook.State.Bounds.{IsBounded}
use solana_orderbook.Book.{Book}
use solana_orderbook.Book.Crossing.{InWindow}
use solana_orderbook.Book.Index.{IsIndexed, indexing}
use solana_orderbook.Book.Frame.{Frame}
use solana_orderbook.Book.Frame.Fixed.{SameParams, SameParams-trans, fixed, both}
use solana_orderbook.Book.Take.{Walk}
use solana_orderbook.Ledger.Conserves.{Conserves, conserving}
use solana_orderbook.Ledger.Settle.{Settled, Settled-Conserves}

-- The bid side pays at most the limit price, the ask side gets at least it.
abbrev pub Within : Side → ℕ → ℕ → ℕ → Type 0
Within bid price lots quote = quote ≤ price * lots
Within ask price lots quote = price * lots ≤ quote

-- A price on the taker's side of the limit.
abbrev pub Beats : Side → ℕ → ℕ → Type 0
Beats bid limit best = best ≤ limit
Beats ask limit best = limit ≤ best

pub Within-add :
    (s : Side) (limit best unit lots n quote : ℕ)
    → Beats s limit best
    → Within s (limit * unit) lots quote
    → Within s (limit * unit) (lots + n) (quote + best * unit * n)
Within-add bid limit best unit lots n quote h w =
    omega (arith, mul-add (limit * unit) lots n, mul-le-mul_right n (mul-le-mul_right unit h))
Within-add ask limit best unit lots n quote h w =
    omega (arith, mul-add (limit * unit) lots n, mul-le-mul_right n (mul-le-mul_right unit h))

-- No value that a walk computes leaves its machine word.
module _ (h : Market) (bounded : IsBounded h) (n : ℕ) (few : n ≤ h.max_lots_per_order) where
  pub value_fits : (h.anchor_tick + 8191) * h.tick_size * n * 10500 ≤ u64_max
  value_fits =
      rw
        (
          mul_assoc ((h.anchor_tick + 8191) * h.tick_size) n 10500,
          mul_assoc (h.anchor_tick + 8191) h.tick_size (n * 10500),
        )
        (omega (
          arith,
          bounded.value,
          mul_assoc h.tick_size h.max_lots_per_order 10500,
          mul-le-mul bounded.window (mul-le-mul_left h.tick_size (mul-le-mul_right 10500 few)),
        ))

  pub base_fits : base_atoms h n ≡ n * h.base_lot_size
  unfolding base_atoms
  base_fits =
      mul64_exact n h.base_lot_size
        (omega (arith, bounded.base, mul-le-mul_left h.base_lot_size few))

-- What a step of the book between two fills may do.
abbrev pub Between : Book → Book → Type 0
Between t u = Conserves t u × ((IsIndexed t → IsIndexed u) × SameParams t u)

unfoldable pub matching : Frame
unfolding both conserving indexing fixed
matching = both conserving (both indexing fixed)

module _ (b : Book) (p : TakeParams) where
  pub record Account (w : Walk) (t : Book) : Type 0 where
    pub split : w.res.lots + w.remaining ≡ p.max_lots
    pub limit : Within p.side (p.limit_tick * b.header.tick_size) w.res.lots w.res.quote
    pub cap : w.res.quote ≤ (b.header.anchor_tick + 8191) * b.header.tick_size * w.res.lots
    pub budget : p.max_quote ≢ u64_max → w.res.quote + w.res.fee ≤ p.max_quote
    pub fee : w.res.fee * 10000 ≤ w.res.quote * b.header.fee_bps
    pub settled : Settled (opposite p.side) (w.res.lots * b.header.base_lot_size) w.res.quote b t
    pub fees : t.header.fees_accrued_quote ≡ b.header.fees_accrued_quote
    pub params : SameParams b t
    pub indexed : IsIndexed t
    pub last : InWindow b.header.anchor_tick w.last_level

  pub Account-Between : (w : Walk) (t u : Book) → Account w t → Between t u → Account w u
  Account-Between w t u a (c, (i, s)) = record {
    split = a.split;
    limit = a.limit;
    cap = a.cap;
    budget = a.budget;
    fee = a.fee;
    settled = Settled-Conserves (opposite p.side) _ _ b t u a.settled c;
    fees = c.fees ∙ a.fees;
    params = SameParams-trans b t u a.params s;
    indexed = i a.indexed;
    last = a.last;
  }
