-- ===== src/Book/Pool.antt =====
-- The node pool: the free list runs through `next`, and a free node carries `freed_seq`.
use solana_orderbook.Base.{ℕ, zero, suc, ◌+◌, ◌-◌, ◌==◌, ◌%◌, if◌then◌else◌, add32, sub32, u16_mod}
use solana_orderbook.Exec.{pure, fail, gets, modify, ◌>>=◌, ◌>>◌}
use solana_orderbook.Exec.Errors.{pool_full}
use solana_orderbook.State.Constants.{nil, freed_seq}
use solana_orderbook.State.Header.{Market}
use solana_orderbook.State.Nodes.{OrderNode}
use solana_orderbook.Book.{M, with_header, node_at, edit_node}

unfoldable pub set_free_list : ℕ → ℕ → Market → Market
set_free_list head count h = record h { free_head = head; free_count = count }

unfoldable pub freed : ℕ → OrderNode → OrderNode
freed head n = record n { next = head; seq = freed_seq; lots = 0 }

unfoldable pub alloc_node : M ℕ
alloc_node = do
  h ← gets λ b. b.header
  if h.free_head == nil then fail pool_full else do
    node ← node_at h.free_head
    modify (with_header (set_free_list node.next (sub32 h.free_count 1)))
    pure h.free_head

unfoldable pub free_node : ℕ → M (Unit {0})
free_node idx = do
  h ← gets λ b. b.header
  edit_node idx (freed h.free_head)
  modify (with_header (set_free_list idx (add32 h.free_count 1)))

-- The `while` loop of `thread_free_list`, over the `rounds` indices below `from + rounds`. It returns
-- the new head.
unfoldable pub thread : ℕ → ℕ → ℕ → M ℕ
thread zero from head = pure head
thread (suc rounds) from head = do
  edit_node (from + rounds) (freed head)
  thread rounds from ((from + rounds) % u16_mod)

unfoldable pub thread_free_list : ℕ → ℕ → M (Unit {0})
unfolding thread
thread_free_list from to = do
  h ← gets λ b. b.header
  head ← thread (to - from) from h.free_head
  modify (with_header (set_free_list head (add32 h.free_count (sub32 to from))))
