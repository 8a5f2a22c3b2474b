-- ===== src/Ledger/Walk.antt =====
-- The rounds and the inner loop of `take` of program/src/state.rs.
use solana_orderbook.Base.{
  ℕ, ◌+◌, ◌≤◌, ◌<◌, ◌≡◌, refl, subst, ◌∙◌, inl, inr, Bool-cases, Option, none, some, ltb, u64_max,
  mul64,
}
use solana_orderbook.Exec.{pure, gets, raise, ◌>>=◌, ◌>>◌, Step, go_on, leave, loop}
use solana_orderbook.Exec.Keeps.{Keeps}
use solana_orderbook.Exec.Triples.{
  Yields, Yields-bind, Yields-gets, Yields-pure, Yields-fail, yields_rules, Ends, Yields-loop,
}
use solana_orderbook.State.{Side, opposite, SelfTradePolicy, cancel_resting, abort, TakeParams}
use solana_orderbook.State.Header.{base_atoms}
use solana_orderbook.State.Nodes.{OrderNode, maker}
use solana_orderbook.State.Bounds.{IsBounded}
use solana_orderbook.Book.{Book, M, node_at, level_at, slot_of, settle_seat, with_seat}
use solana_orderbook.Book.Frame.{Frame}
use solana_orderbook.Book.Frame.Lists.{write_rules, fifo_unlink-Keeps, chain_unlink-Keeps}
use solana_orderbook.Book.Frame.Lifecycle.{kill_order-Keeps}
use solana_orderbook.Book.Frame.Fixed.{SameParams, SameParams-trans, same_header}
use solana_orderbook.Book.Index.{IsIndexed}
use solana_orderbook.Book.Orders.{kill_order}
use solana_orderbook.Book.Take.{
  Walk, consume, settle_maker, fill_size, fill_order, self_trade_with, match_round,
}
use solana_orderbook.Ledger.Settle.{
  Settled, Settled-Conserves, settle_maker-Settled, Post-settle_seat,
}
use solana_orderbook.Ledger.Matching.{Account, Account-Between, Beats, Between, matching}
use solana_orderbook.Ledger.Accounting.{Account-filled}

consume-Keeps :
    (F : Frame) (s : Side) (lvl head node_lots fill : ℕ)
    → Keeps F.order (consume s lvl head node_lots fill)
unfolding consume
consume-Keeps F s lvl head node_lots fill =
    search (write_rules, fifo_unlink-Keeps, chain_unlink-Keeps) depth 9

module _ {B : Type 0} {R : B → Book → Type 0} where
  -- Reading a node leaves the book as it is.
  Yields-node_at :
      (i : ℕ) (f : OrderNode → M B) (t : Book)
      → ((n : OrderNode) → Yields R (f n) t)
      → Yields R (node_at i >>= f) t
  unfolding node_at ◌>>=◌ gets raise
  Yields-node_at i f t h = elim (Bool-cases (ltb i t.header.order_pool_capacity)) [
    | inl e ↦ record { outcome = rw e ((h (t.pool i)).outcome) }
    | inr e ↦ record { outcome = rw e tt }
  ]

  -- An action that makes no trade.
  Yields-Between :
      {A : Type 0} (m : M A) (f : A → M B) (t : Book)
      → Keeps matching.order m
      → ((a : A) (u : Book) → Between t u → Yields R (f a) u)
      → Yields R (m >>= f) t
  unfolding matching
  Yields-Between m f t k h =
      Yields-bind (λ _ u. Between t u) m f t (record { outcome = k.holds t }) h

module _ (b : Book) (p : TakeParams) where
  -- The inner loop ends on the account, whether the walk goes on or not.
  abbrev pub Paused : Step Walk Walk → Book → Type 0
  Paused (go_on w) t = Account b p w t
  Paused (leave w) t = Account b p w t

  module _ (bounded : IsBounded b.header) (some_lots : 0 < p.max_lots)
      (few : p.max_lots ≤ b.header.max_lots_per_order) (small : p.max_quote ≤ u64_max) (best : ℕ)
      (near : best ≤ b.header.anchor_tick + 8191) (beats : Beats p.side p.limit_tick best) where
    abbrev RoundEnds : Step Walk (Step Walk Walk) → Book → Type 0
    RoundEnds = Ends (Account b p) Paused

    abbrev per_lot : ℕ
    per_lot = mul64 best b.header.tick_size

    kill-Account :
        (head : ℕ) (w : Walk) (t : Book)
        → Account b p w t
        → Yields RoundEnds (kill_order head >> pure (go_on w)) t
    kill-Account head w t a =
        Yields-Between (kill_order head) _ t (kill_order-Keeps matching head)
          λ _ u k. Yields-pure (go_on w) u (Account-Between b p w t u a k)

    self_trade_with-Account :
        (policy : SelfTradePolicy) (head : ℕ) (w : Walk) (t : Book)
        → Account b p w t
        → Yields RoundEnds (self_trade_with p b.header.fee_bps policy head w) t
    unfolding self_trade_with
    self_trade_with-Account abort head w t a = Yields-fail _ t
    self_trade_with-Account cancel_resting head w t a = kill-Account head w t a

    -- After the maker's balances, before the order.
    record Traded (n : ℕ) (t u : Book) : Type 0 where
      trade : Settled (opposite p.side) (base_atoms b.header n) (mul64 per_lot n) t u
      fees : u.header.fees_accrued_quote ≡ t.header.fees_accrued_quote
      params : SameParams t u
      indexed : IsIndexed t → IsIndexed u

    settle-Traded :
        (n i : ℕ) (t : Book)
        → SameParams b t
        → Yields
            (λ _ u. Traded n t u)
            (settle_seat i
              (settle_maker (opposite p.side) (base_atoms t.header n) (mul64 per_lot n)))
            t
    unfolding with_seat base_atoms
    settle-Traded n i t s = record {
      outcome =
          Post-settle_seat (λ u. Traded n t u) i _ t
            λ seat lt e. record {
              trade =
                  subst
                    (λ (x : ℕ).
                      Settled (opposite p.side) (mul64 n x) (mul64 per_lot n) t
                        (with_seat i seat t))
                    s.base_lot_size
                    (settle_maker-Settled (opposite p.side) (base_atoms t.header n)
                      (mul64 per_lot n) i seat t lt e);
              fees = refl;
              params = same_header t _ refl;
              indexed = λ x. record { bids = x.bids; asks = x.asks };
            };
    }

    fill_order-Account :
        (head : ℕ) (node : OrderNode) (w : Walk) (o : Option ℕ) (t : Book)
        → fill_size p.max_quote b.header.fee_bps per_lot node.lots w ≡ o
        → Account b p w t
        → Yields RoundEnds (fill_order p b.header.fee_bps best per_lot head node w o) t
    unfolding fill_order
    fill_order-Account head node w none t e a = Yields-pure (leave (leave w)) t a
    fill_order-Account head node w (some n) t e a =
        Yields-gets (λ c. c.header) _ t
          (Yields-bind (λ _ u. Traded n t u) _ _ t (settle-Traded n (maker node) t a.params)
            λ _ u k.
              Yields-Between _ _ u
                (consume-Keeps matching (opposite p.side) (slot_of best) head node.lots n)
                λ _ v (c, (i, s)).
                  (let a' =
                      Account-filled b p bounded some_lots few small best near beats n node.lots w t
                        v e (Settled-Conserves (opposite p.side) _ _ t u v k.trade c)
                        (c.fees ∙ k.fees) (SameParams-trans t u v k.params s)
                        (i (k.indexed a.indexed)) a in
                    search yields_rules))

    match_round-Account :
        (w : Walk) (t : Book)
        → Account b p w t
        → Yields RoundEnds (match_round p b.header.fee_bps best per_lot w) t
    unfolding match_round level_at
    match_round-Account w t a =
        search
          (yields_rules, Yields-node_at, kill-Account, self_trade_with-Account, fill_order-Account)
          depth 12

    pub inner_loop-Account :
        (budget : ℕ) (w : Walk) (t : Book)
        → Account b p w t
        → Yields Paused (loop budget (match_round p b.header.fee_bps best per_lot) w) t
    inner_loop-Account budget w t a = Yields-loop (Account b p) budget _ w t match_round-Account a
