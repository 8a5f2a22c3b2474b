-- ===== src/Book/Frame/Quiet.antt =====
-- The parts of the operations of program/src/state.rs that leave bitmaps and levels alone.
use solana_orderbook.Base.{ℕ, ◌≡◌, refl, ◌∙◌, ltb}
use solana_orderbook.Exec.{Result, gets, modify, raise}
use solana_orderbook.Exec.Errors.{panicked}
use solana_orderbook.Exec.Keeps.{Preorder, Keeps, Keeps-modify, keeps_rules}
use solana_orderbook.Exec.Triples.{Yields, Yields-gets, Yields-if, Yields-raise}
use solana_orderbook.State.{Side}
use solana_orderbook.State.Header.{Market}
use solana_orderbook.State.Nodes.{OrderNode}
use solana_orderbook.State.Seats.{Seat}
use solana_orderbook.Book.{
  Book, M, with_header, with_pool, with_seat, node_at, put_node, edit_node, seat_at, put_seat,
  edit_seat, settle_seat,
}
use solana_orderbook.Book.Pool.{alloc_node, free_node}
use solana_orderbook.Book.Chain.{
  chain_key, seek, chain_unlink, chain_splice, ensure_order_slot, chain_insert_sorted,
}
use solana_orderbook.Book.Orders.{lock_for, unlock_for}

-- Bitmaps and levels are as before.
pub record SameLevels (b b' : Book) : Type 0 where
  pub bids : b'.bid_bitmap ≡ b.bid_bitmap
  pub asks : b'.ask_bitmap ≡ b.ask_bitmap
  pub levels : b'.levels ≡ b.levels

pub same_refl : (b : Book) → SameLevels b b
same_refl b = record { bids = refl; asks = refl; levels = refl }

pub same_trans : (b c d : Book) → SameLevels b c → SameLevels c d → SameLevels b d
same_trans b c d p q = record {
  bids = q.bids ∙ p.bids;
  asks = q.asks ∙ p.asks;
  levels = q.levels ∙ p.levels;
}

unfoldable pub quiet : Preorder Book
quiet = record { Rel = SameLevels; rel_refl = same_refl; rel_trans = same_trans }

node_at-Quiet : (i : ℕ) → Keeps quiet (node_at i)
unfolding node_at
node_at-Quiet i = search keeps_rules

pub edit_node-Quiet : (i : ℕ) (f : OrderNode → OrderNode) → Keeps quiet (edit_node i f)
unfolding edit_node put_node with_pool quiet
edit_node-Quiet i f = search (keeps_rules, node_at-Quiet, Keeps-modify, same_but_pool) depth 8
  where
    same_but_pool : (n : OrderNode) (b : Book) → SameLevels b (with_pool i n b)
    same_but_pool n b = record { bids = refl; asks = refl; levels = refl }

put_seat-Quiet : (i : ℕ) (s : Seat) → Keeps quiet (put_seat i s)
unfolding put_seat with_seat quiet
put_seat-Quiet i s = search (keeps_rules, Keeps-modify, same_but_seat) depth 8
  where
    same_but_seat : (b : Book) → SameLevels b (with_seat i s b)
    same_but_seat b = record { bids = refl; asks = refl; levels = refl }

seat_at-Quiet : (i : ℕ) → Keeps quiet (seat_at i)
unfolding seat_at
seat_at-Quiet i = search keeps_rules

edit_seat-Quiet : (i : ℕ) (f : Seat → Seat) → Keeps quiet (edit_seat i f)
unfolding edit_seat
edit_seat-Quiet i f = search (keeps_rules, seat_at-Quiet, put_seat-Quiet) depth 8

settle_seat-Quiet : (i : ℕ) (f : Seat → Result Seat) → Keeps quiet (settle_seat i f)
unfolding settle_seat
settle_seat-Quiet i f = search (keeps_rules, seat_at-Quiet, put_seat-Quiet) depth 8

pub header-Quiet : (f : Market → Market) → Keeps quiet (modify (with_header f))
unfolding with_header quiet
header-Quiet f = Keeps-modify _ λ b. record { bids = refl; asks = refl; levels = refl }

ruleset quiet_rules = (
  keeps_rules, node_at-Quiet, edit_node-Quiet, seat_at-Quiet, edit_seat-Quiet, settle_seat-Quiet,
  header-Quiet,
)

pub unlock_for-Quiet :
    (seat : ℕ) (s : Side) (tick lots : ℕ) → Keeps quiet (unlock_for seat s tick lots)
unfolding unlock_for
unlock_for-Quiet seat s tick lots = search quiet_rules depth 8

pub lock_for-Quiet : (seat : ℕ) (s : Side) (tick lots : ℕ) → Keeps quiet (lock_for seat s tick lots)
unfolding lock_for
lock_for-Quiet seat s tick lots = search quiet_rules depth 8

pub chain_unlink-Quiet : (idx : ℕ) → Keeps quiet (chain_unlink idx)
unfolding chain_unlink free_node
chain_unlink-Quiet idx = search quiet_rules depth 12

pub ensure_order_slot-Quiet : (seat : ℕ) → Keeps quiet (ensure_order_slot seat)
unfolding ensure_order_slot
ensure_order_slot-Quiet seat = search quiet_rules depth 8

pub alloc_node-Quiet : Keeps quiet alloc_node
unfolding alloc_node
alloc_node-Quiet = search quiet_rules depth 8

chain_key-Quiet : (idx : ℕ) → Keeps quiet (chain_key idx)
unfolding chain_key
chain_key-Quiet idx = search quiet_rules depth 8

seek-Quiet : (key : ℕ) (at : ℕ × ℕ) → Keeps quiet (seek key at)
unfolding seek
seek-Quiet key (prev, cur) = search (quiet_rules, chain_key-Quiet) depth 8

chain_splice-Quiet : (seat prev next idx : ℕ) → Keeps quiet (chain_splice seat prev next idx)
unfolding chain_splice
chain_splice-Quiet seat prev next idx = search quiet_rules depth 12

pub chain_insert_sorted-Quiet :
    (budget seat idx : ℕ) → Keeps quiet (chain_insert_sorted budget seat idx)
unfolding chain_insert_sorted
chain_insert_sorted-Quiet budget seat idx =
    search (quiet_rules, chain_key-Quiet, seek-Quiet, chain_splice-Quiet) depth 9

pub Yields-quiet :
    {A : Type 0} (m : M A) (b : Book) → Keeps quiet m → Yields (λ _ t. SameLevels b t) m b
unfolding quiet
Yields-quiet m b k = record { outcome = k.holds b }

-- A node is read, and the book is as before.
pub node_at-Reads :
    (idx : ℕ) (b : Book) → Yields (λ n t. (n ≡ b.pool idx) × (t ≡ b)) (node_at idx) b
unfolding node_at gets
node_at-Reads idx b =
    Yields-gets (λ c. c.header.order_pool_capacity) _ b
      (Yields-if (ltb idx b.header.order_pool_capacity) (gets λ c. c.pool idx) (raise panicked) b
        (λ _. record { outcome = (refl, refl) }) λ _. Yields-raise panicked b)
