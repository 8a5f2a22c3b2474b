-- ===== src/Book/Chain.antt =====
-- The order chain of a seat: doubly linked through `maker_prev` and `maker_next`, bids before asks,
-- ascending by tick. A walk takes at most `budget` steps: a longer one runs out of compute.
use solana_orderbook.Base.{ℕ, ◌+◌, ◌*◌, ◌^◌, Option, none, some, ◌==◌, ltb, leb, if◌then◌else◌}
use solana_orderbook.Exec.{pure, fail, ◌>>=◌, ◌>>◌, Step, go_on, leave, loop}
use solana_orderbook.Exec.Errors.{too_many_orders}
use solana_orderbook.State.Constants.{nil, max_orders_per_seat}
use solana_orderbook.State.{Side, side_index}
use solana_orderbook.State.Nodes.{OrderNode, maker, side}
use solana_orderbook.State.Seats.{Seat, inc_order_count, dec_order_count}
use solana_orderbook.Book.{M, node_at, edit_node, seat_at, edit_seat}
use solana_orderbook.Book.Pool.{free_node}

-- `((side as u64) << 32) | tick as u64`.
unfoldable pub quote_key : Side → ℕ → ℕ
quote_key s tick = side_index s * 2 ^ 32 + tick

unfoldable pub chain_key : ℕ → M ℕ
chain_key idx = do node ← node_at idx; pure (quote_key (side node) node.tick)

unfoldable pub set_maker_links : ℕ → ℕ → OrderNode → OrderNode
set_maker_links prev next n = record n { maker_prev = prev; maker_next = next }

unfoldable pub set_maker_next : ℕ → OrderNode → OrderNode
set_maker_next next n = record n { maker_next = next }

unfoldable pub set_maker_prev : ℕ → OrderNode → OrderNode
set_maker_prev prev n = record n { maker_prev = prev }

unfoldable pub set_orders_head : ℕ → Seat → Seat
set_orders_head head s = record s { orders_head = head }

unfoldable pub chain_unlink : ℕ → M (Unit {0})
chain_unlink idx = do
  node ← node_at idx
  if node.maker_prev == nil
      then edit_seat (maker node) (set_orders_head node.maker_next)
      else edit_node node.maker_prev (set_maker_next node.maker_next)
  if node.maker_next == nil
      then pure tt
      else edit_node node.maker_next (set_maker_prev node.maker_prev)
  edit_seat (maker node) dec_order_count
  free_node idx

unfoldable pub chain_splice : ℕ → ℕ → ℕ → ℕ → M (Unit {0})
chain_splice seat prev next idx = do
  edit_node idx (set_maker_links prev next)
  if prev == nil then edit_seat seat (set_orders_head idx) else edit_node prev (set_maker_next idx)
  if next == nil then pure tt else edit_node next (set_maker_prev idx)
  edit_seat seat inc_order_count

unfoldable pub ensure_order_slot : ℕ → M (Unit {0})
ensure_order_slot seat = do
  s ← seat_at seat
  if leb max_orders_per_seat s.order_count then fail too_many_orders else pure tt

-- One round of the walk in `chain_insert_sorted`, over `(prev, cur)`.
unfoldable pub seek : ℕ → ℕ × ℕ → M (Step (ℕ × ℕ) (ℕ × ℕ))
seek key (prev, cur) = if cur == nil then pure (leave (prev, cur)) else do
  k ← chain_key cur
  node ← node_at cur
  if ltb k key then pure (go_on (cur, node.maker_next)) else pure (leave (prev, cur))

-- One round of the walk in `find_quote`.
unfoldable pub look : ℕ → ℕ → M (Step ℕ (Option ℕ))
look key cur = if cur == nil then pure (leave none) else do
  k ← chain_key cur
  node ← node_at cur
  if k == key
      then pure (leave (some cur))
      else (if ltb key k then pure (leave none) else pure (go_on node.maker_next))

module _ (budget : ℕ) where
  unfoldable pub chain_insert_sorted : ℕ → ℕ → M (Unit {0})
  unfolding seek
  chain_insert_sorted seat idx = do
    key ← chain_key idx
    s ← seat_at seat
    (prev, cur) ← loop budget (seek key) (nil, s.orders_head)
    chain_splice seat prev cur idx

  unfoldable pub find_quote : ℕ → Side → ℕ → M (Option ℕ)
  unfolding look
  find_quote seat s tick = do t ← seat_at seat; loop budget (look (quote_key s tick)) t.orders_head
