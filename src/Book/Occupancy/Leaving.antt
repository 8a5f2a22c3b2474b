-- ===== src/Book/Occupancy/Leaving.antt =====
-- What killing an order does to the occupancy bitmaps and to the queue of its level: `kill_order` and
-- `cancel_order` of program/src/state.rs.
use solana_orderbook.Base.{
  ℕ, ◌≡◌, refl, ap, ◌∙◌, Bool, true, false, ◌&&◌, not, ◌||◌, ◌==◌, leb, if◌then◌else◌, arith,
  update_self,
}
use solana_orderbook.Exec.{ok, fail, modify, ◌>>=◌, ◌>>◌}
use solana_orderbook.Exec.Errors.{order_not_found}
use solana_orderbook.Exec.Keeps.{Post-ok, Keeps-bind}
use solana_orderbook.Exec.Triples.{
  Yields, Yields-bind, Yields-weaken, Yields-gets, Yields-if, Yields-fail,
}
use solana_orderbook.State.Constants.{nil}
use solana_orderbook.State.{Side}
use solana_orderbook.State.Nodes.{Level, OrderNode, sub_lots, zero_level, maker, side}
use solana_orderbook.Bitmap.{clear}
use solana_orderbook.Book.{
  Book, with_level, with_bitmap, edit_node, level_at, edit_level, edit_bitmap, is_occupied, slot_of,
}
use solana_orderbook.Book.Fifo.{set_head, set_tail, set_next, set_prev, fifo_unlink}
use solana_orderbook.Book.Orders.{kill_order, cancel_order}
use solana_orderbook.Book.Frame.Quiet.{
  SameLevels, edit_node-Quiet, unlock_for-Quiet, chain_unlink-Quiet, Yields-quiet, node_at-Reads,
}
use solana_orderbook.Book.Occupancy.{at_slot, is_occupied-clear, same_levels, same_reading}

-- What unlinking leaves as the head of the queue.
unfoldable pub head_without : OrderNode → Level → ℕ
head_without n l = if n.prev == nil then n.next else l.head

-- The order has left its queue: the ticks of its slot read as free on its side exactly if nobody is
-- left in the queue or they did before, and every other reading is as before.
pub record Vacated (n : OrderNode) (b b' : Book) : Type 0 where
  pub bits :
      (u : Side) (t : ℕ)
      → is_occupied u t b' ≡ (
          if at_slot (side n) n.tick u t && (head_without n (b.levels (slot_of n.tick)) == nil)
          then false
          else is_occupied u t b)
  pub head : (b'.levels (slot_of n.tick)).head ≡ head_without n (b.levels (slot_of n.tick))

-- The bitmaps are as before, and a level has this head.
record Headed (b : Book) (l head : ℕ) (t : Book) : Type 0 where
  bids : t.bid_bitmap ≡ b.bid_bitmap
  asks : t.ask_bitmap ≡ b.ask_bitmap
  front : (t.levels l).head ≡ head

still :
    (b : Book) (l head : ℕ) (t u : Book) → Headed b l head t → SameLevels t u → Headed b l head u
still b l head t u h s = record {
  bids = s.bids ∙ h.bids;
  asks = s.asks ∙ h.asks;
  front = ap (λ f. (f l).head) s.levels ∙ h.front;
}

edit_level-Headed :
    (b : Book) (l head head' : ℕ) (f : Level → Level) (t : Book)
    → Headed b l head t
    → (f (t.levels l)).head ≡ head'
    → Yields (λ _ u. Headed b l head' u) (edit_level l f) t
unfolding edit_level modify with_level
edit_level-Headed b l head head' f t h e = record {
  outcome = record {
    bids = h.bids;
    asks = h.asks;
    front = ap (λ x. x.head) (update_self t.levels l (f (t.levels l))) ∙ e;
  };
}

edit_node-Headed :
    (b : Book) (l head i : ℕ) (f : OrderNode → OrderNode) (t : Book)
    → Headed b l head t
    → Yields (λ _ u. Headed b l head u) (edit_node i f) t
edit_node-Headed b l head i f t h =
    Yields-weaken (λ _ u. SameLevels t u) _ t (Yields-quiet _ t (edit_node-Quiet i f))
      λ _ u s. still b l head t u h s

-- The end of `fifo_unlink`.
module _ (n : OrderNode) (b : Book) where
  abbrev slot : ℕ
  slot = slot_of n.tick

  abbrev front : ℕ
  front = head_without n (b.levels slot)

  emptied :
      (t : Book)
      → Headed b slot front t
      → (front == nil) ≡ true
      → Yields
          (λ _ u. Vacated n b u)
          (edit_level slot (λ _. zero_level) >> edit_bitmap (side n) (clear n.tick))
          t
  unfolding edit_bitmap zero_level modify
  emptied t h e =
      Yields-bind (λ _ u. Headed b slot front u) _ _ t
        (edit_level-Headed b slot front front (λ _. zero_level) t h (ground (arith, e)))
        λ _ u k. record {
          outcome = record {
            bits = λ v x.
                is_occupied-clear (side n) n.tick v x u
                ∙ rw (e, same_reading v x b u k.bids k.asks)
                    (cleared (at_slot (side n) n.tick v x) _);
            head = unmoved u ∙ k.front;
          };
        }
    where
      cleared : (c r : Bool) → (if c then false else r) ≡ (if c && true then false else r)
      cleared true r = refl
      cleared false r = refl

      unmoved :
          (u : Book)
          → ((with_bitmap (side n) (clear n.tick) u).levels slot).head ≡ (u.levels slot).head
      unmoved u = ap (λ f. (f slot).head) (same_levels (side n) (clear n.tick) u)

  shortened :
      (t : Book)
      → Headed b slot front t
      → (front == nil) ≡ false
      → Yields (λ _ u. Vacated n b u) (edit_level slot (sub_lots n.lots)) t
  unfolding sub_lots
  shortened t h e =
      Yields-weaken (λ _ u. Headed b slot front u) _ t
        (edit_level-Headed b slot front front (sub_lots n.lots) t h h.front)
        λ _ u k. record {
          bits = λ v x.
              rw e (same_reading v x b u k.bids k.asks ∙ kept (at_slot (side n) n.tick v x) _);
          head = k.front;
        }
    where
      kept : (c r : Bool) → r ≡ (if c && false then false else r)
      kept true r = refl
      kept false r = refl

  unlinked :
      (t : Book)
      → Headed b slot front t
      → Yields
          (λ _ u. Vacated n b u)
          (do
            level ← level_at slot
            if level.head == nil
                then (do edit_level slot (λ _. zero_level); edit_bitmap (side n) (clear n.tick))
                else edit_level slot (sub_lots n.lots))
          t
  unfolding level_at
  unlinked t h =
      Yields-gets (λ c. c.levels slot) _ t
        (Yields-if _ _ _ t (λ e. emptied t h (rw⁻¹ h.front e)) λ e. shortened t h (rw⁻¹ h.front e))

  first_link :
      Yields
        (λ _ t. Headed b slot front t)
        (if n.prev == nil
          then edit_level slot (set_head n.next)
          else edit_node n.prev (set_next n.next))
        b
  unfolding head_without set_head
  first_link =
      Yields-if (n.prev == nil) _ _ b
        (λ e. rw e (edit_level-Headed b slot (b.levels slot).head _ _ b whole refl))
        λ e. rw e (edit_node-Headed b slot _ n.prev (set_next n.next) b whole)
    where
      whole : Headed b slot (b.levels slot).head b
      whole = record { bids = refl; asks = refl; front = refl }

  last_link :
      (t : Book)
      → Headed b slot front t
      → Yields
          (λ _ u. Headed b slot front u)
          (if n.next == nil
            then edit_level slot (set_tail n.prev)
            else edit_node n.next (set_prev n.prev))
          t
  unfolding set_tail
  last_link t h =
      Yields-if (n.next == nil) _ _ t (λ _. edit_level-Headed b slot front front _ t h h.front)
        λ _. edit_node-Headed b slot front n.next (set_prev n.prev) t h

fifo_unlink-Vacates :
    (idx : ℕ) (b : Book)
    → Yields (λ _ t. Vacated (b.pool idx) b t) (fifo_unlink (side (b.pool idx)) idx) b
unfolding fifo_unlink
fifo_unlink-Vacates idx b =
    Yields-bind (λ n t. (n ≡ b.pool idx) × (t ≡ b)) _ _ b (node_at-Reads idx b)
      λ n t (e, g).
        rw (e, g)
          (Yields-bind (λ _ u. Headed b (slot (b.pool idx) b) (front (b.pool idx) b) u) _ _ b
            (first_link (b.pool idx) b)
            λ _ u h.
              Yields-bind (λ _ u. Headed b (slot (b.pool idx) b) (front (b.pool idx) b) u) _ _ u
                (last_link (b.pool idx) b u h) λ _ v k. unlinked (b.pool idx) b v k)

-- What comes after the queue leaves it alone.
after_queue : (n : OrderNode) (b t u : Book) → Vacated n b t → SameLevels t u → Vacated n b u
after_queue n b t u v s = record {
  bits = λ x y. same_reading x y t u s.bids s.asks ∙ v.bits x y;
  head = ap (λ f. (f (slot_of n.tick)).head) s.levels ∙ v.head;
}

pub kill_order-Vacates :
    (idx : ℕ) (b : Book) → Yields (λ _ t. Vacated (b.pool idx) b t) (kill_order idx) b
unfolding kill_order
kill_order-Vacates idx b =
    Yields-bind (λ n t. (n ≡ b.pool idx) × (t ≡ b)) _ _ b (node_at-Reads idx b)
      λ n t (e, g).
        rw (e, g)
          (Yields-bind (λ _ u. Vacated (b.pool idx) b u) _ _ b (fifo_unlink-Vacates idx b)
            λ _ u v.
              Yields-weaken (λ _ x. SameLevels u x) _ u
                (Yields-quiet _ u
                  (Keeps-bind _ _ (unlock_for-Quiet _ _ _ _) λ _. chain_unlink-Quiet idx))
                λ _ x s. after_queue (b.pool idx) b u x v s)

cancel_order-Yields :
    (seat idx expected_seq : ℕ) (b : Book)
    → Yields (λ _ t. Vacated (b.pool idx) b t) (cancel_order seat idx expected_seq) b
unfolding cancel_order
cancel_order-Yields seat idx expected_seq b =
    Yields-gets (λ c. c.header) _ b
      (Yields-if ((idx == nil) || leb b.header.order_pool_capacity idx) (fail order_not_found) _ b
        (λ _. Yields-fail order_not_found b)
        λ _.
          Yields-bind (λ n t. (n ≡ b.pool idx) × (t ≡ b)) _ _ b (node_at-Reads idx b)
            λ n t (_, g).
              Yields-if (not (n.seq == expected_seq) || not (maker n == seat))
                (fail order_not_found) (kill_order idx) t (λ _. Yields-fail order_not_found t)
                λ _. rw g (kill_order-Vacates idx b))

-- If `cancel_order` succeeds, the head of the level of its order is the next order if the order
-- had none before it, and as before if it had; if that leaves the queue empty, the ticks of its
-- ring slot read as free on its side, and every other reading of both bitmaps is as before.
pub cancel_order-Vacates :
    (seat idx expected_seq : ℕ) (b b' : Book)
    → cancel_order seat idx expected_seq b ≡ ok (tt, b')
    → Vacated (b.pool idx) b b'
cancel_order-Vacates seat idx expected_seq b b' e =
    Post-ok (λ _ t. Vacated (b.pool idx) b t)
      ((cancel_order-Yields seat idx expected_seq b).outcome) e
