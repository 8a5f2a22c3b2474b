-- ===== src/Book/Sparing/Kill.antt =====
-- Killing an order of program/src/state.rs leaves every other order alone, up to its links.
use native.Mathlib.Decide.{ℕ_discrete}
use solana_orderbook.Base.{
  ℕ, ◌≡◌, ◌≢◌, refl, ap, sym, subst, ◌∙◌, Bool-cases, ltb, arith, update, update_self, update_ne,
  inl, inr,
}
use solana_orderbook.Exec.{Result, gets, modify, raise, ◌>>=◌}
use solana_orderbook.Exec.Keeps.{Preorder, Keeps, Keeps-modify, keeps_rules}
use solana_orderbook.State.{Side, bid, ask}
use solana_orderbook.State.Header.{Market}
use solana_orderbook.State.Nodes.{Level, OrderNode}
use solana_orderbook.State.Seats.{Seat}
use solana_orderbook.Bitmap.{Bitmap}
use solana_orderbook.Book.{
  Book, with_header, with_pool, with_level, with_seat, with_bitmap, node_at, put_node, edit_node,
  seat_at, put_seat, edit_seat, settle_seat, level_at, edit_level, edit_bitmap,
}
use solana_orderbook.Book.Pool.{free_node}
use solana_orderbook.Book.Fifo.{set_next, set_prev, fifo_unlink}
use solana_orderbook.Book.Chain.{set_maker_next, set_maker_prev, chain_unlink}
use solana_orderbook.Book.Orders.{unlock_for, kill_order}

-- All but the links is as before.
pub record SameOrder (n n' : OrderNode) : Type 0 where
  pub tick : n'.tick ≡ n.tick
  pub lots : n'.lots ≡ n.lots
  pub seq : n'.seq ≡ n.seq
  pub expiry_slot : n'.expiry_slot ≡ n.expiry_slot
  pub maker_bits : n'.maker_bits ≡ n.maker_bits

pub order_refl : (n : OrderNode) → SameOrder n n
order_refl n = record {
  tick = refl;
  lots = refl;
  seq = refl;
  expiry_slot = refl;
  maker_bits = refl;
}

pub order_trans : (n m k : OrderNode) → SameOrder n m → SameOrder m k → SameOrder n k
order_trans n m k p q = record {
  tick = q.tick ∙ p.tick;
  lots = q.lots ∙ p.lots;
  seq = q.seq ∙ p.seq;
  expiry_slot = q.expiry_slot ∙ p.expiry_slot;
  maker_bits = q.maker_bits ∙ p.maker_bits;
}

same_pool : (n m : OrderNode) → n ≡ m → SameOrder n m
same_pool n m e = subst (λ k. SameOrder n k) e (order_refl n)

module _ (idx : ℕ) where
  -- Every order but the one in `idx` is as before.
  abbrev pub Others : Book → Book → Type 0
  Others b b' = (i : ℕ) → i ≢ idx → SameOrder (b.pool i) (b'.pool i)

  abbrev others : Preorder Book
  others = record {
    Rel = Others;
    rel_refl = λ b i h. order_refl (b.pool i);
    rel_trans = λ b c d p q i h. order_trans _ _ _ (p i h) (q i h);
  }

  node_at-Others : (i : ℕ) → Keeps others (node_at i)
  unfolding node_at
  node_at-Others i = search keeps_rules

  with_pool-Others :
      (j : ℕ) (n : OrderNode) (b : Book)
      → (j ≢ idx → SameOrder (b.pool j) n)
      → Others b (with_pool j n b)
  unfolding with_pool
  with_pool-Others j n b h i apart = elim (ℕ_discrete i j) [
    | yes e ↦
        subst (λ (k : ℕ). SameOrder (b.pool k) (update b.pool j n k)) (sym e)
          (subst (λ k. SameOrder (b.pool j) k) (sym (update_self b.pool j n))
            (h λ g. apart (e ∙ g)))
    | no g ↦
        subst (λ k. SameOrder (b.pool i) k) (sym (update_ne b.pool j i n g)) (order_refl (b.pool i))
  ]

  edit_node-Others :
      (j : ℕ) (f : OrderNode → OrderNode)
      → ((n : OrderNode) → j ≢ idx → SameOrder n (f n))
      → Keeps others (edit_node j f)
  unfolding edit_node node_at put_node ◌>>=◌ gets modify raise
  edit_node-Others j f h = record {
    holds = λ b. elim (Bool-cases (ltb j b.header.order_pool_capacity)) [
      | inl e ↦ rw (e, e) (with_pool-Others j (f (b.pool j)) b (h (b.pool j)))
      | inr e ↦ rw e tt
    ];
  }

  -- A write that leaves the pool alone.
  modify-Others : (f : Book → Book) → ((b : Book) → (f b).pool ≡ b.pool) → Keeps others (modify f)
  modify-Others f h =
      Keeps-modify f λ b i apart. same_pool (b.pool i) ((f b).pool i) (sym (ap (λ g. g i) (h b)))

  level_at-Others : (l : ℕ) → Keeps others (level_at l)
  unfolding level_at
  level_at-Others l = search keeps_rules

  edit_level-Others : (l : ℕ) (f : Level → Level) → Keeps others (edit_level l f)
  unfolding edit_level with_level
  edit_level-Others l f = modify-Others _ λ b. refl

  edit_bitmap-Others : (s : Side) (f : Bitmap → Bitmap) → Keeps others (edit_bitmap s f)
  unfolding edit_bitmap
  edit_bitmap-Others s f = modify-Others _ (unpooled s)
    where
      unpooled : (s : Side) (b : Book) → (with_bitmap s f b).pool ≡ b.pool
      unpooled bid b = unfold with_bitmap in refl
      unpooled ask b = unfold with_bitmap in refl

  header-Others : (f : Market → Market) → Keeps others (modify (with_header f))
  unfolding with_header
  header-Others f = modify-Others _ λ b. refl

  seat_at-Others : (i : ℕ) → Keeps others (seat_at i)
  unfolding seat_at
  seat_at-Others i = search keeps_rules

  put_seat-Others : (i : ℕ) (s : Seat) → Keeps others (put_seat i s)
  unfolding put_seat with_seat
  put_seat-Others i s = search (keeps_rules, modify-Others, unpooled) depth 8
    where
      unpooled : (b : Book) → (with_seat i s b).pool ≡ b.pool
      unpooled b = refl

  edit_seat-Others : (i : ℕ) (f : Seat → Seat) → Keeps others (edit_seat i f)
  unfolding edit_seat
  edit_seat-Others i f = search (keeps_rules, seat_at-Others, put_seat-Others) depth 8

  settle_seat-Others : (i : ℕ) (f : Seat → Result Seat) → Keeps others (settle_seat i f)
  unfolding settle_seat
  settle_seat-Others i f = search (keeps_rules, seat_at-Others, put_seat-Others) depth 8

  -- The links are no part of the order.
  set_next-Others : (j link : ℕ) → Keeps others (edit_node j (set_next link))
  unfolding set_next
  set_next-Others j link = edit_node-Others j (set_next link) λ n _. ground arith

  set_prev-Others : (j link : ℕ) → Keeps others (edit_node j (set_prev link))
  unfolding set_prev
  set_prev-Others j link = edit_node-Others j (set_prev link) λ n _. ground arith

  set_maker_next-Others : (j link : ℕ) → Keeps others (edit_node j (set_maker_next link))
  unfolding set_maker_next
  set_maker_next-Others j link = edit_node-Others j (set_maker_next link) λ n _. ground arith

  set_maker_prev-Others : (j link : ℕ) → Keeps others (edit_node j (set_maker_prev link))
  unfolding set_maker_prev
  set_maker_prev-Others j link = edit_node-Others j (set_maker_prev link) λ n _. ground arith

  own-Others : (f : OrderNode → OrderNode) → Keeps others (edit_node idx f)
  own-Others f = edit_node-Others idx f λ n h. absurd (h refl)

  ruleset others_rules = (
    keeps_rules, node_at-Others, level_at-Others, edit_level-Others, edit_bitmap-Others,
    header-Others, seat_at-Others, edit_seat-Others, settle_seat-Others, set_next-Others,
    set_prev-Others, set_maker_next-Others, set_maker_prev-Others, own-Others,
  )

  fifo_unlink-Others : (s : Side) → Keeps others (fifo_unlink s idx)
  unfolding fifo_unlink
  fifo_unlink-Others s = search others_rules depth 12

  unlock_for-Others :
      (seat : ℕ) (s : Side) (tick lots : ℕ) → Keeps others (unlock_for seat s tick lots)
  unfolding unlock_for
  unlock_for-Others seat s tick lots = search others_rules depth 8

  chain_unlink-Others : Keeps others (chain_unlink idx)
  unfolding chain_unlink free_node
  chain_unlink-Others = search others_rules depth 12

  pub kill_order-Others : Keeps others (kill_order idx)
  unfolding kill_order
  kill_order-Others =
      search (others_rules, fifo_unlink-Others, unlock_for-Others, chain_unlink-Others) depth 8
