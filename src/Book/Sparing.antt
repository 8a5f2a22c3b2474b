-- ===== src/Book/Sparing.antt =====
-- The orders that `reap_expired` of program/src/state.rs leaves alone.
pub mod Kill
use native.Mathlib.Decide.{ℕ_discrete}
use solana_orderbook.Base.{
  ℕ, ◌≡◌, ◌≢◌, refl, ap, sym, subst, ◌∙◌, Bool, true, false, Bool-cases, Option, none, some, ◌==◌,
  ltb, leb, add32, if◌then◌else◌, arith, update, update_self, update_ne, inl, inr,
}
use solana_orderbook.Exec.{
  Exec, Result, ok, pure, gets, modify, raise, ◌>>=◌, ◌>>◌, Step, go_on, leave,
}
use solana_orderbook.Exec.Keeps.{
  Post-ok, Preorder, Keeps, Keeps-bind, Keeps-if, Keeps-pure, Keeps-modify, keeps_rules,
}
use solana_orderbook.Exec.Triples.{Yields, Yields-bind, Yields-weaken, Yields-pure, Yields-if}
use solana_orderbook.State.Constants.{nil}
use solana_orderbook.State.{Side, bid, ask}
use solana_orderbook.State.Header.{Market}
use solana_orderbook.State.Nodes.{Level, OrderNode, is_expired, maker, side}
use solana_orderbook.State.Seats.{Seat}
use solana_orderbook.Bitmap.{Bitmap}
use solana_orderbook.Book.{
  Book, M, with_header, with_pool, with_level, with_seat, with_bitmap, node_at, put_node, edit_node,
  seat_at, put_seat, edit_seat, settle_seat, level_at, edit_level, edit_bitmap,
}
use solana_orderbook.Book.Frame.Quiet.{node_at-Reads}
use solana_orderbook.Book.Pool.{free_node}
use solana_orderbook.Book.Fifo.{set_next, set_prev, fifo_unlink}
use solana_orderbook.Book.Chain.{set_maker_next, set_maker_prev, chain_unlink}
use solana_orderbook.Book.Orders.{unlock_for, kill_order}
use solana_orderbook.Book.Hygiene.{reap_round, reap_level, reap_levels, reap_expired}
use solana_orderbook.Book.Sparing.Kill.{
  SameOrder, order_refl, order_trans, Others, kill_order-Others,
}

-- An order that has not expired is as before, up to its links.
abbrev pub Spares : ℕ → Book → Book → Type 0
Spares slot b b' = (i : ℕ) → is_expired (b.pool i) slot ≡ false → SameOrder (b.pool i) (b'.pool i)

module _ (slot : ℕ) where
  still_good :
      (n m : OrderNode) → SameOrder n m → is_expired n slot ≡ false → is_expired m slot ≡ false
  unfolding is_expired
  still_good n m s e = rw s.expiry_slot e

  abbrev sparing : Preorder Book
  sparing = record {
    Rel = Spares slot;
    rel_refl = λ b i h. order_refl (b.pool i);
    rel_trans = λ b c d p q i h.
        order_trans _ _ _ (p i h) (q i (still_good (b.pool i) (c.pool i) (p i h) h));
  }

  killed :
      (idx : ℕ) (b : Book)
      → is_expired (b.pool idx) slot ≡ true
      → Yields (λ _ t. Spares slot b t) (kill_order idx) b
  killed idx b e =
      Yields-weaken (λ _ t. Others idx b t) _ b
        (record { outcome = (kill_order-Others idx).holds b })
        λ _ t o i good. o i λ h. differs (rw h e) good
    where
      differs : {c : Bool} → c ≡ true → ¬ (c ≡ false)
      differs p q = ground (arith, p, q)

  reap_round-Spares : (max_count : ℕ) (at : ℕ × ℕ) → Keeps sparing (reap_round max_count slot at)
  unfolding reap_round
  reap_round-Spares max_count (cur, reaped) =
      Keeps-if (cur == nil) _ _ (Keeps-pure _) record { holds = λ b. (one_round b).outcome }
    where
      one_round :
          (b : Book)
          → Yields {A = Step (ℕ × ℕ) (Step ℕ ℕ)}
              (λ _ t. Spares slot b t)
              (do
                node ← node_at cur
                if is_expired node slot
                    then (do
                      kill_order cur
                      let reaped' = add32 reaped 1
                      if leb max_count reaped'
                          then pure (leave (leave reaped'))
                          else pure (go_on (node.next, reaped')))
                    else pure (go_on (node.next, reaped)))
              b
      one_round b =
          Yields-bind (λ n t. (n ≡ b.pool cur) × (t ≡ b)) _ _ b (node_at-Reads cur b)
            λ n t (e, g). rw g (
              Yields-if (is_expired n slot) _ (pure (go_on (n.next, reaped))) b
                (λ h.
                  Yields-bind (λ _ u. Spares slot b u) (kill_order cur) _ b
                    (killed cur b (rw⁻¹ e h))
                    λ _ u k.
                      Yields-if (leb max_count (add32 reaped 1))
                        (pure (leave (leave (add32 reaped 1))))
                        (pure (go_on (n.next, add32 reaped 1))) u (λ _. Yields-pure _ u k)
                        λ _. Yields-pure _ u k)
                λ _. Yields-pure _ b λ i _. order_refl (b.pool i))

  level_at-Spares : (l : ℕ) → Keeps sparing (level_at l)
  unfolding level_at
  level_at-Spares l = search keeps_rules

  module _ (budget : ℕ) (s : Side) (max_count anchor : ℕ) where
    reap_level-Spares :
        (reaped : ℕ) (o : Option ℕ)
        → Keeps sparing (reap_level budget s max_count slot anchor reaped o)
    unfolding reap_level
    reap_level-Spares reaped none = search keeps_rules
    reap_level-Spares reaped (some t) =
        search (keeps_rules, level_at-Spares, reap_round-Spares) depth 9

    reap_levels-Spares :
        (at : ℕ × ℕ) → Keeps sparing (reap_levels budget s max_count slot anchor at)
    unfolding reap_levels
    reap_levels-Spares (tick, reaped) = search (keeps_rules, reap_level-Spares) depth 8

  reap_expired-Keeps :
      (budget : ℕ) (s : Side) (start_tick max_count : ℕ)
      → Keeps sparing (reap_expired budget s start_tick max_count slot)
  unfolding reap_expired
  reap_expired-Keeps budget s start_tick max_count =
      search (keeps_rules, reap_levels-Spares) depth 8

-- If `reap_expired` succeeds, every node of the pool whose expiry has not passed at the slot has
-- the tick, lots, id, expiry, maker and side that it had.
pub reap_expired-Spares :
    (budget : ℕ) (s : Side) (start_tick max_count slot : ℕ) (b b' : Book) (reaped : ℕ)
    → reap_expired budget s start_tick max_count slot b ≡ ok (reaped, b')
    → Spares slot b b'
reap_expired-Spares budget s start_tick max_count slot b b' reaped e =
    Post-ok (λ _ t. Spares slot b t)
      ((reap_expired-Keeps slot budget s start_tick max_count).holds b) e
