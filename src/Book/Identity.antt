-- ===== src/Book/Identity.antt =====
-- The ids of orders, and the mark of a freed node, in program/src/state.rs.
use solana_orderbook.Base.{ℕ, ◌≡◌, ◌≢◌, inl, inr, Bool-cases, arith, ltb, ap, update_self}
use solana_orderbook.Exec.{ok, err, fail, gets, modify, raise, ◌>>=◌}
use solana_orderbook.Exec.Keeps.{Post, Post-ok}
use solana_orderbook.Exec.Errors.{clob, order_not_found}
use solana_orderbook.State.Constants.{freed_seq}
use solana_orderbook.State.Header.{Market, next_id}
use solana_orderbook.Book.{Book, with_header, with_pool, node_at, put_node, edit_node}
use solana_orderbook.Book.Pool.{freed, free_node, set_free_list}
use solana_orderbook.Book.Orders.{cancel_order}

-- The id handed out next is never the mark of a free node.
next_id-fresh : (h : Market) → next_id h ≢ freed_seq
unfolding next_id
next_id-fresh h = ground arith

-- A free node.
record IsFreed (idx : ℕ) (b : Book) : Type 0 where
  marked : (b.pool idx).seq ≡ freed_seq

cancel-freed :
    (seat idx id : ℕ) (b : Book)
    → IsFreed idx b
    → id ≢ freed_seq
    → cancel_order seat idx id b ≡ err (clob order_not_found)
unfolding cancel_order node_at ◌>>=◌ gets fail raise
cancel-freed seat idx id b f h = ground (arith, f.marked)

-- Freeing leaves the mark.
free_node-IsFreed : (idx : ℕ) (b : Book) → Post (λ _ t. IsFreed idx t) (free_node idx b)
unfolding free_node edit_node node_at put_node freed with_header with_pool set_free_list ◌>>=◌ gets
    modify raise
free_node-IsFreed idx b = elim (Bool-cases (ltb idx b.header.order_pool_capacity)) [
  | inl h ↦ rw (h, h) (record { marked = ap (λ n. n.seq) (update_self b.pool idx _) })
  | inr h ↦ rw h tt
]

-- After `free_node` succeeds, the next id of any header is refused by `cancel_order` on that
-- node, since no id handed out is the mark of a free node; the answer is that there is no such
-- order.
pub cancel_order-free_node :
    (seat idx : ℕ) (h : Market) (b b' : Book)
    → free_node idx b ≡ ok (tt, b')
    → cancel_order seat idx (next_id h) b' ≡ err (clob order_not_found)
cancel_order-free_node seat idx h b b' e =
    cancel-freed seat idx (next_id h) b'
      (Post-ok (λ _ t. IsFreed idx t) (free_node-IsFreed idx b) e) (next_id-fresh h)
