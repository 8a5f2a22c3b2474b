-- ===== src/Book/Frame/Lists.antt =====
-- The linked lists respect every frame: pool, level queues and seat chains.
use solana_orderbook.Base.{ℕ, arith}
use solana_orderbook.Exec.Keeps.{Keeps, keeps_rules}
use solana_orderbook.State.{Side}
use solana_orderbook.State.Seats.{Seat, inc_order_count, dec_order_count}
use solana_orderbook.Book.Pool.{alloc_node, free_node}
use solana_orderbook.Book.Fifo.{fifo_append, fifo_unlink}
use solana_orderbook.Book.Chain.{
  chain_key, set_orders_head, chain_unlink, chain_splice, ensure_order_slot, seek, look,
  chain_insert_sorted, find_quote,
}
use solana_orderbook.Book.Frame.{
  Frame, SameFunds, node_at-Keeps, edit_node-Keeps, seat_at-Keeps, level_at-Keeps, edit_level-Keeps,
  set_bit-Keeps, clear_bit-Keeps, free_list-Keeps, edit_seat-Keeps,
}

pub set_orders_head-SameFunds : (head : ℕ) (s : Seat) → SameFunds s (set_orders_head head s)
unfolding set_orders_head
set_orders_head-SameFunds head s = ground arith

pub inc_order_count-SameFunds : (s : Seat) → SameFunds s (inc_order_count s)
unfolding inc_order_count
inc_order_count-SameFunds s = ground arith

pub dec_order_count-SameFunds : (s : Seat) → SameFunds s (dec_order_count s)
unfolding dec_order_count
dec_order_count-SameFunds s = ground arith

pub ruleset write_rules = (
  keeps_rules, node_at-Keeps, edit_node-Keeps, seat_at-Keeps, level_at-Keeps, edit_level-Keeps,
  set_bit-Keeps, clear_bit-Keeps, free_list-Keeps, edit_seat-Keeps, set_orders_head-SameFunds,
  inc_order_count-SameFunds, dec_order_count-SameFunds,
)

module _ (F : Frame) where
  pub alloc_node-Keeps : Keeps F.order alloc_node
  unfolding alloc_node
  alloc_node-Keeps = search write_rules depth 8

  pub free_node-Keeps : (idx : ℕ) → Keeps F.order (free_node idx)
  unfolding free_node
  free_node-Keeps idx = search write_rules depth 8

  pub fifo_append-Keeps :
      (s : Side) (tick idx lots : ℕ) → Keeps F.order (fifo_append s tick idx lots)
  unfolding fifo_append
  fifo_append-Keeps s tick idx lots = search write_rules depth 12

  pub fifo_unlink-Keeps : (s : Side) (idx : ℕ) → Keeps F.order (fifo_unlink s idx)
  unfolding fifo_unlink
  fifo_unlink-Keeps s idx = search write_rules depth 12

  pub chain_unlink-Keeps : (idx : ℕ) → Keeps F.order (chain_unlink idx)
  unfolding chain_unlink
  chain_unlink-Keeps idx = search (write_rules, free_node-Keeps) depth 12

  pub chain_splice-Keeps :
      (seat prev next idx : ℕ) → Keeps F.order (chain_splice seat prev next idx)
  unfolding chain_splice
  chain_splice-Keeps seat prev next idx = search write_rules depth 12

  pub ensure_order_slot-Keeps : (seat : ℕ) → Keeps F.order (ensure_order_slot seat)
  unfolding ensure_order_slot
  ensure_order_slot-Keeps seat = search write_rules

  chain_key-Keeps : (idx : ℕ) → Keeps F.order (chain_key idx)
  unfolding chain_key
  chain_key-Keeps idx = search write_rules

  seek-Keeps : (key : ℕ) (at : ℕ × ℕ) → Keeps F.order (seek key at)
  unfolding seek
  seek-Keeps key (prev, cur) = search (write_rules, chain_key-Keeps) depth 8

  look-Keeps : (key cur : ℕ) → Keeps F.order (look key cur)
  unfolding look
  look-Keeps key cur = search (write_rules, chain_key-Keeps) depth 9

  pub chain_insert_sorted-Keeps :
      (budget seat idx : ℕ) → Keeps F.order (chain_insert_sorted budget seat idx)
  unfolding chain_insert_sorted
  chain_insert_sorted-Keeps budget seat idx =
      search (write_rules, chain_key-Keeps, seek-Keeps, chain_splice-Keeps) depth 9

  pub find_quote-Keeps :
      (budget seat : ℕ) (s : Side) (tick : ℕ) → Keeps F.order (find_quote budget seat s tick)
  unfolding find_quote
  find_quote-Keeps budget seat s tick = search (write_rules, look-Keeps) depth 8
