-- ===== src/Ledger/Taking.antt =====
-- `take` as a trade: the levels that it visits, and what its result says of the books before and after.
mod Levels
use native.Mathlib.Decide.{ℕ_discrete}
use solana_orderbook.Base.{
  ℕ, ◌⊎◌, inl, inr, ◌+◌, ◌*◌, ◌≤◌, ◌<◌, ◌≡◌, refl, sym, ap, subst, Bool, false, Option, none, some,
  arith, u32_mod, u64_max, add32, sub32, add64, mul64, ◌==◌, ltb, ◌||◌,
}
use solana_orderbook.Exec.{ok, pure, modify, ◌>>=◌, ◌>>◌, Step, go_on, leave, loop}
use solana_orderbook.Exec.Keeps.{Post-ok, Post-weaken}
use solana_orderbook.Exec.Triples.{
  Yields, Yields-bind, Yields-gets, Yields-pure, yields_rules, Ends, Yields-loop,
}
use solana_orderbook.State.{Side, bid, ask, opposite, TakeParams, TakeResult}
use solana_orderbook.State.Header.{add_fees_accrued}
use solana_orderbook.State.Bounds.{IsBounded}
use solana_orderbook.Bitmap.{get}
use solana_orderbook.Bitmap.Scan.{IsLowest, IsHighest}
use solana_orderbook.Bitmap.Window.Next.{next_at_or_after-IsLowest}
use solana_orderbook.Bitmap.Window.Prev.{prev_at_or_before-IsHighest}
use solana_orderbook.Book.{Book, with_header}
use solana_orderbook.Book.Frame.Fixed.{SameParams, SameParams-refl}
use solana_orderbook.Book.Index.{IsIndexed}
use solana_orderbook.Book.Crossing.{InWindow}
use solana_orderbook.Book.Take.{
  Walk, at_most, no_less, next_from, level_from, match_round, at_level, level_round, start_walk,
  take,
}
use solana_orderbook.Ledger.{total_base, total_quote}
use solana_orderbook.Ledger.Settle.{Settled, Settled-zero}
use solana_orderbook.Ledger.Matching.{value_fits, Account, Beats, Within}
use solana_orderbook.Ledger.Walk.{Paused, inner_loop-Account}
use Levels.{Tradable, next_from-InWindow, level_from-Tradable}

Within-zero : (s : Side) (price : ℕ) → Within s price 0 0
Within-zero bid price = omega arith
Within-zero ask price = omega arith

-- Only the seats matter to a settlement.
moved :
    (s : Side) (m n : ℕ) (b t u : Book) → u.seats ≡ t.seats → Settled s m n b t → Settled s m n b u
unfolding total_base total_quote
moved bid m n b t u e k = rw e k
moved ask m n b t u e k = rw e k

-- What `take` has done when it succeeds with `res`.
pub record Trade (b : Book) (p : TakeParams) (res : TakeResult) (b' : Book) : Type 0 where
  pub size : res.lots ≤ p.max_lots
  pub few : res.lots ≤ b.header.max_lots_per_order
  pub limit : Within p.side (p.limit_tick * b.header.tick_size) res.lots res.quote
  pub budget : (p.max_quote ≡ u64_max) ⊎ (res.quote + res.fee ≤ p.max_quote)
  pub fee : res.fee * 10000 ≤ res.quote * b.header.fee_bps
  pub settled : Settled (opposite p.side) (res.lots * b.header.base_lot_size) res.quote b b'
  pub fees : b'.header.fees_accrued_quote ≡ add64 b.header.fees_accrued_quote res.fee
  pub indexed : IsIndexed b'
  pub fits : res.quote * 10500 ≤ u64_max
  pub params : SameParams b b'

module _ (b : Book) (p : TakeParams) (bounded : IsBounded b.header) where
  module _ (some_lots : 0 < p.max_lots) (few : p.max_lots ≤ b.header.max_lots_per_order)
      (small : p.max_quote ≤ u64_max) (budget : ℕ) where
    abbrev WalkEnds : Step Walk Walk → Book → Type 0
    WalkEnds = Ends (Account b p) (Account b p)

    Paused-WalkEnds : (r : Step Walk Walk) (t : Book) → Paused b p r t → WalkEnds r t
    Paused-WalkEnds (go_on w) t a = a
    Paused-WalkEnds (leave w) t a = a

    module _ (w : Walk) (t : Book) (a : Account b p w t) where
      visit :
          (best : ℕ)
          → Tradable p.side p.limit_tick b.header.anchor_tick best
          → Account b p (record w { last_level = some best }) t
      visit best (lo, (hi, x)) = record {
        split = a.split;
        limit = a.limit;
        cap = a.cap;
        budget = a.budget;
        fee = a.fee;
        settled = a.settled;
        fees = a.fees;
        params = a.params;
        indexed = a.indexed;
        last = (lo, hi);
      }

      inner :
          (best : ℕ)
          → Tradable p.side p.limit_tick b.header.anchor_tick best
          → Yields WalkEnds
              (loop budget
                (match_round p b.header.fee_bps best (mul64 best t.header.tick_size))
                (record w { last_level = some best }))
              t
      inner best (lo, (hi, x)) =
          subst
            (λ (y : ℕ).
              Yields WalkEnds
                (loop budget (match_round p b.header.fee_bps best (mul64 best y))
                  (record w { last_level = some best }))
                t)
            (sym a.params.tick_size)
            (record {
              outcome =
                  Post-weaken (Paused b p) WalkEnds _
                    (inner_loop-Account b p bounded some_lots few small best hi x budget _ t
                      (visit best (lo, (hi, x)))).outcome
                    Paused-WalkEnds;
            })

      at_level-Account :
          (o : Option ℕ)
          → ((best : ℕ) → o ≡ some best → Tradable p.side p.limit_tick b.header.anchor_tick best)
          → Yields WalkEnds (at_level budget p b.header.fee_bps b.header.anchor_tick w o) t
      unfolding at_level
      at_level-Account none h = Yields-pure (leave w) t a
      at_level-Account (some best) h = let near = h best refl in search (yields_rules, inner)

    level_round-Account :
        (w : Walk) (t : Book)
        → Account b p w t
        → Yields WalkEnds (level_round budget p b.header.fee_bps b.header.anchor_tick w) t
    unfolding level_round
    level_round-Account w t a =
        let level = at_level-Account w t a _ λ best e.
          level_from-Tradable p.side p.limit_tick b.header.anchor_tick best _ t a.indexed
            (omega (arith, bounded.window, bounded.ticks))
            (λ from h.
              next_from-InWindow p.side b.header.anchor_tick from w.last_level
                (omega (arith, bounded.window, bounded.ticks)) a.last h)
            e in
        search yields_rules

    start-Account : IsIndexed b → Account b p (start_walk p.max_lots) b
    unfolding start_walk
    start-Account i = record {
      split = omega arith;
      limit = Within-zero p.side (p.limit_tick * b.header.tick_size);
      cap = omega arith;
      budget = λ h. omega arith;
      fee = omega arith;
      settled =
          subst (λ (x : ℕ). Settled (opposite p.side) x 0 b b) (omega arith)
            (Settled-zero (opposite p.side) b);
      fees = refl;
      params = SameParams-refl b;
      indexed = i;
      last = tt;
    }

  finish :
      (w : Walk) (t : Book)
      → p.max_lots ≤ b.header.max_lots_per_order
      → Account b p w t
      → Trade b p w.res (with_header (add_fees_accrued w.res.fee) t)
  unfolding with_header add_fees_accrued total_base total_quote
  finish w t few a = record {
    size = omega (arith, a.split);
    few = omega (arith, a.split);
    limit = a.limit;
    budget = elim (ℕ_discrete p.max_quote u64_max) [ yes e ↦ inl e | no h ↦ inr (a.budget h) ];
    fee = a.fee;
    settled = moved (opposite p.side) _ _ b t _ refl a.settled;
    fees = ap (λ (x : ℕ). add64 x w.res.fee) a.fees;
    indexed = record { bids = a.indexed.bids; asks = a.indexed.asks };
    fits =
        omega
          (arith, a.cap, a.split, value_fits b.header bounded w.res.lots (omega (arith, a.split)));
    params = record {
      tick_size = a.params.tick_size;
      base_lot_size = a.params.base_lot_size;
      anchor_tick = a.params.anchor_tick;
      fee_bps = a.params.fee_bps;
      listed = a.params.listed;
    };
  }

  walk-Yields :
      (budget : ℕ)
      → IsIndexed b
      → p.max_quote ≤ u64_max
      → (p.max_lots == 0 || ltb b.header.max_lots_per_order p.max_lots) ≡ false
      → Yields
          (Account b p)
          (loop budget
            (level_round budget p b.header.fee_bps b.header.anchor_tick)
            (start_walk p.max_lots))
          b
  walk-Yields budget i small e =
      let some_lots : 0 < p.max_lots = ground arith in
      let few : p.max_lots ≤ b.header.max_lots_per_order = ground arith in
      Yields-loop (Account b p) budget _ (start_walk p.max_lots) b
        (level_round-Account some_lots few small budget)
        (start-Account some_lots few small budget i)

  pub take-Yields :
      (budget : ℕ)
      → IsIndexed b
      → p.max_quote ≤ u64_max
      → Yields (λ res t. Trade b p res t) (take budget p) b
  unfolding take modify
  take-Yields budget i small =
      Yields-gets (λ c. c.header) _ b (search (yields_rules, after) depth 9)
    where
      after :
          (p.max_lots == 0 || ltb b.header.max_lots_per_order p.max_lots) ≡ false
          → Yields
              (λ res t. Trade b p res t)
              (do
                w ←
                    loop budget
                      (level_round budget p b.header.fee_bps b.header.anchor_tick)
                      (start_walk p.max_lots)
                modify (with_header (add_fees_accrued w.res.fee))
                pure w.res)
              b
      after e = Yields-bind (Account b p) _ _ b (walk-Yields budget i small e) λ w t a.
          Yields-bind (λ _ u. Trade b p w.res u) (modify (with_header (add_fees_accrued w.res.fee)))
            _ t (record { outcome = finish w t (ground arith) a }) λ _ u k. Yields-pure w.res u k

  -- If `take` succeeds on a bounded market with consistent bitmaps, for a budget that is a u64,
  -- its lots are at most those asked for and at most the most lots per order of the market, its
  -- quote is on the right side of the limit price, quote and fee stay within the budget unless
  -- the budget is the largest u64, the fee is at most its rate of the quote, the seats in total
  -- deliver at least and receive at most the lots and the quote of the result, and exactly those
  -- modulo 2^64, the fee counter grows by the fee (wrapping), the quote times 10,500 fits a u64,
  -- and the bitmaps are consistent and the parameters of the market as before.
  pub take-Trade :
      (budget : ℕ) (b' : Book) (res : TakeResult)
      → IsIndexed b
      → p.max_quote ≤ u64_max
      → take budget p b ≡ ok (res, b')
      → Trade b p res b'
  take-Trade budget b' res i small e =
      Post-ok (λ r t. Trade b p r t) ((take-Yields budget i small).outcome) e
