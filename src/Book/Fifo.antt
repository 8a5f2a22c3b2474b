-- ===== src/Book/Fifo.antt =====
-- The level queues: `fifo_append` and `fifo_unlink`.
use solana_orderbook.Base.{ℕ, ◌==◌, if◌then◌else◌}
use solana_orderbook.Exec.{gets, ◌>>=◌, ◌>>◌}
use solana_orderbook.State.Constants.{nil}
use solana_orderbook.State.{Side}
use solana_orderbook.State.Nodes.{Level, OrderNode, add_lots, sub_lots, zero_level}
use solana_orderbook.Bitmap.{set, clear}
use solana_orderbook.Book.{
  M, node_at, edit_node, level_at, edit_level, edit_bitmap, is_occupied, slot_of,
}

unfoldable pub set_links : ℕ → ℕ → OrderNode → OrderNode
set_links prev next n = record n { prev = prev; next = next }

unfoldable pub set_next : ℕ → OrderNode → OrderNode
set_next next n = record n { next = next }

unfoldable pub set_prev : ℕ → OrderNode → OrderNode
set_prev prev n = record n { prev = prev }

unfoldable pub set_head : ℕ → Level → Level
set_head head l = record l { head = head }

unfoldable pub set_tail : ℕ → Level → Level
set_tail tail l = record l { tail = tail }

unfoldable pub fifo_append : Side → ℕ → ℕ → ℕ → M (Unit {0})
fifo_append side tick idx lots = do
  occupied ← gets (is_occupied side tick)
  level ← level_at (slot_of tick)
  if occupied
      then (do
        edit_node level.tail (set_next idx)
        edit_node idx (set_links level.tail nil)
        edit_level (slot_of tick) (set_tail idx)
        edit_level (slot_of tick) (add_lots lots))
      else (do
        edit_level (slot_of tick) (set_head idx)
        edit_level (slot_of tick) (set_tail idx)
        edit_level (slot_of tick) (add_lots lots)
        edit_node idx (set_links nil nil)
        edit_bitmap side (set tick))

unfoldable pub fifo_unlink : Side → ℕ → M (Unit {0})
fifo_unlink side idx = do
  node ← node_at idx
  let lvl = slot_of node.tick
  if node.prev == nil
      then edit_level lvl (set_head node.next)
      else edit_node node.prev (set_next node.next)
  if node.next == nil
      then edit_level lvl (set_tail node.prev)
      else edit_node node.next (set_prev node.prev)
  level ← level_at lvl
  if level.head == nil
      then (do edit_level lvl (λ _. zero_level); edit_bitmap side (clear node.tick))
      else edit_level lvl (sub_lots node.lots)
