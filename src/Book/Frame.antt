-- ===== src/Book/Frame.antt =====
-- Relations between the books before and after a mutator of program/src/state.rs. A `Frame` is a
-- preorder on books with a rule for each primitive write.
pub mod Lists
pub mod Lifecycle
pub mod Bulk
pub mod Fixed
pub mod Quiet
use solana_orderbook.Base.{
  ℕ, ◌<◌, ◌≡◌, refl, inl, inr, Bool, true, false, arith, ltb, ltb→lt, if◌then◌else◌, Bool-cases,
}
use solana_orderbook.Exec.{Result, ok, err, pure, raise, gets, lift, modify, continue, ◌>>=◌}
use solana_orderbook.Exec.Keeps.{
  Post, Preorder, Keeps, Keeps-modify, Keeps-gets, Keeps-raise, Keeps-if, Keeps-bind, keeps_rules,
}
use solana_orderbook.State.{Side}
use solana_orderbook.State.Header.{Market, advance_order_seq}
use solana_orderbook.State.Nodes.{Level, OrderNode}
use solana_orderbook.State.Seats.{Seat, lock, unlock}
use solana_orderbook.Bitmap.{set, clear}
use solana_orderbook.Book.{
  Book, with_header, with_pool, with_level, with_seat, with_bitmap, node_at, put_node, edit_node,
  seat_at, put_seat, edit_seat, settle_seat, level_at, edit_level, edit_bitmap,
}
use solana_orderbook.Book.Pool.{set_free_list}

-- Owner and balances are as before.
pub record SameFunds (s t : Seat) : Type 0 where
  pub owner : t.owner ≡ s.owner
  pub base_free : t.base_free ≡ s.base_free
  pub quote_free : t.quote_free ≡ s.quote_free
  pub base_locked : t.base_locked ≡ s.base_locked
  pub quote_locked : t.quote_locked ≡ s.quote_locked

pub record Frame : Type 1 where
  pub order : Preorder Book
  pub open order use {Rel}
  pub on_pool : (i : ℕ) (n : OrderNode) (b : Book) → Rel b (with_pool i n b)
  pub on_level : (i : ℕ) (l : Level) (b : Book) → Rel b (with_level i l b)
  pub on_set : (s : Side) (tick : ℕ) (b : Book) → Rel b (with_bitmap s (set tick) b)
  pub on_clear : (s : Side) (tick : ℕ) (b : Book) → Rel b (with_bitmap s (clear tick) b)
  pub on_free_list : (head count : ℕ) (b : Book) → Rel b (with_header (set_free_list head count) b)
  pub on_order_seq : (b : Book) → Rel b (with_header advance_order_seq b)
  pub on_links :
      (i : ℕ) (s : Seat) (b : Book) → i < 128 → SameFunds (b.seats i) s → Rel b (with_seat i s b)
  pub on_lock :
      (i : ℕ) (base : Bool) (atoms : ℕ) (s : Seat) (b : Book)
      → i < 128
      → lock base atoms (b.seats i) ≡ ok s
      → Rel b (with_seat i s b)
  pub on_unlock :
      (i : ℕ) (base : Bool) (atoms : ℕ) (s : Seat) (b : Book)
      → i < 128
      → unlock base atoms (b.seats i) ≡ ok s
      → Rel b (with_seat i s b)

module _ (F : Frame) where
  pub node_at-Keeps : (i : ℕ) → Keeps F.order (node_at i)
  unfolding node_at
  node_at-Keeps i = search keeps_rules

  pub put_node-Keeps : (i : ℕ) (n : OrderNode) → Keeps F.order (put_node i n)
  unfolding put_node
  put_node-Keeps i n = search (keeps_rules, Keeps-modify, F.on_pool)

  pub edit_node-Keeps : (i : ℕ) (f : OrderNode → OrderNode) → Keeps F.order (edit_node i f)
  unfolding edit_node
  edit_node-Keeps i f = search (keeps_rules, node_at-Keeps, put_node-Keeps)

  pub seat_at-Keeps : (i : ℕ) → Keeps F.order (seat_at i)
  unfolding seat_at
  seat_at-Keeps i = search keeps_rules

  pub level_at-Keeps : (i : ℕ) → Keeps F.order (level_at i)
  unfolding level_at
  level_at-Keeps i = search keeps_rules

  pub edit_level-Keeps : (i : ℕ) (f : Level → Level) → Keeps F.order (edit_level i f)
  unfolding edit_level
  edit_level-Keeps i f = Keeps-modify _ λ b. F.on_level i (f (b.levels i)) b

  pub set_bit-Keeps : (s : Side) (tick : ℕ) → Keeps F.order (edit_bitmap s (set tick))
  unfolding edit_bitmap
  set_bit-Keeps s tick = Keeps-modify _ λ b. F.on_set s tick b

  pub clear_bit-Keeps : (s : Side) (tick : ℕ) → Keeps F.order (edit_bitmap s (clear tick))
  unfolding edit_bitmap
  clear_bit-Keeps s tick = Keeps-modify _ λ b. F.on_clear s tick b

  pub free_list-Keeps :
      (head count : ℕ) → Keeps F.order (modify (with_header (set_free_list head count)))
  free_list-Keeps head count = Keeps-modify _ λ b. F.on_free_list head count b

  pub order_seq-Keeps : Keeps F.order (modify (with_header advance_order_seq))
  order_seq-Keeps = Keeps-modify _ λ b. F.on_order_seq b

  pub edit_seat-Keeps :
      (i : ℕ) (f : Seat → Seat) → ((s : Seat) → SameFunds s (f s)) → Keeps F.order (edit_seat i f)
  unfolding edit_seat ◌>>=◌ gets modify raise
  edit_seat-Keeps i f h = record {
    holds = λ b. elim (Bool-cases (ltb i 128)) [
      | inl e ↦ rw e (F.on_links i (f (b.seats i)) b (ltb→lt i 128 e) (h (b.seats i)))
      | inr e ↦ rw e tt
    ];
  }

  -- The write that follows a change of balances.
  settled :
      (i : ℕ) (f : Seat → Result Seat) (b : Book) (r : Result Seat)
      → f (b.seats i) ≡ r
      → ((s : Seat) → f (b.seats i) ≡ ok s → F.Rel b (with_seat i s b))
      → Post (λ _ t. F.Rel b t) (continue (lift r b) (λ s. modify (with_seat i s)))
  unfolding lift modify
  settled i f b (ok s) e h = h s e
  settled i f b (err x) e h = tt

  pub settle_seat-Keeps :
      (i : ℕ) (f : Seat → Result Seat)
      → ((s : Seat) (b : Book) → i < 128 → f (b.seats i) ≡ ok s → F.Rel b (with_seat i s b))
      → Keeps F.order (settle_seat i f)
  unfolding settle_seat ◌>>=◌ gets raise
  settle_seat-Keeps i f h = record {
    holds = λ b. elim (Bool-cases (ltb i 128)) [
      | inl e ↦ rw e (settled i f b (f (b.seats i)) refl (λ s p. h s b (ltb→lt i 128 e) p))
      | inr e ↦ rw e tt
    ];
  }
