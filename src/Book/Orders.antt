-- ===== src/Book/Orders.antt =====
-- The life of an order: `kill_order`, the crossing check, `book_insert`, `upsert_order`,
-- `cancel_order`.
use solana_orderbook.Base.{
  ℕ, ◌-◌, Bool, false, not, ◌||◌, Option, none, some, ◌==◌, ltb, leb, if◌then◌else◌, add32, sub32,
}
use solana_orderbook.Exec.{Result, ok, err, pure, fail, gets, lift, modify, ◌>>=◌, ◌>>◌}
use solana_orderbook.Exec.Errors.{
  clob, invalid_lots, order_not_found, would_cross, tick_out_of_window,
}
use solana_orderbook.State.Constants.{nil, window_mask}
use solana_orderbook.State.{Side, bid, ask}
use solana_orderbook.State.Header.{Market, next_id, advance_order_seq}
use solana_orderbook.State.Nodes.{OrderNode, maker, side, set_maker_and_side, sub_lots}
use solana_orderbook.State.Seats.{lock, unlock}
use solana_orderbook.Book.{
  M, with_header, node_at, edit_node, settle_seat, edit_level, slot_of, opposing_best, locked_atoms,
}
use solana_orderbook.Book.Pool.{alloc_node}
use solana_orderbook.Book.Fifo.{fifo_append, fifo_unlink}
use solana_orderbook.Book.Chain.{chain_unlink, chain_insert_sorted, ensure_order_slot, find_quote}

-- `seats[seat].lock(base, atoms)` and `unlock`, at `self.locked_atoms(side, tick, lots)`.
unfoldable pub lock_for : ℕ → Side → ℕ → ℕ → M (Unit {0})
lock_for seat s tick lots = do
  (base, atoms) ← gets λ b. locked_atoms s tick lots b.header
  settle_seat seat (lock base atoms)

unfoldable pub unlock_for : ℕ → Side → ℕ → ℕ → M (Unit {0})
unlock_for seat s tick lots = do
  (base, atoms) ← gets λ b. locked_atoms s tick lots b.header
  settle_seat seat (unlock base atoms)

unfoldable pub kill_order : ℕ → M (Unit {0})
kill_order idx = do
  node ← node_at idx
  fifo_unlink (side node) idx
  unlock_for (maker node) (side node) node.tick node.lots
  chain_unlink idx

-- The crossing check of `check_or_slide_vs`, once the tick is known to lie in the window.
unfoldable pub slide_off : Side → ℕ → Bool → ℕ → Option ℕ → Result ℕ
slide_off s tick slide anchor none = ok tick
slide_off bid tick slide anchor (some ba) =
    if leb ba tick
    then (if not slide
        then err (clob would_cross)
        else (if ba == anchor then err (clob tick_out_of_window) else ok (sub32 ba 1)))
    else ok tick
slide_off ask tick slide anchor (some bb) =
    if leb tick bb
    then (if not slide
        then err (clob would_cross)
        else (if bb == add32 anchor window_mask
            then err (clob tick_out_of_window)
            else ok (add32 bb 1)))
    else ok tick

unfoldable pub check_or_slide_vs : Side → ℕ → Bool → Option ℕ → Market → Result ℕ
unfolding slide_off
check_or_slide_vs s tick slide best h =
    if ltb tick h.anchor_tick
      || (ltb (add32 h.anchor_tick window_mask) tick || ltb h.tick_limit tick)
    then err (clob tick_out_of_window)
    else (if tick == 0
        then err (clob tick_out_of_window)
        else slide_off s tick slide h.anchor_tick best)

unfoldable pub check_or_slide : Side → ℕ → Bool → M ℕ
check_or_slide s tick slide = do
  best ← gets (opposing_best s)
  h ← gets λ b. b.header
  lift (check_or_slide_vs s tick slide best h)

unfoldable pub set_order : ℕ → ℕ → ℕ → Side → ℕ → ℕ → OrderNode → OrderNode
set_order tick lots seat s expiry_slot seq n = record (set_maker_and_side seat s n) {
  tick = tick;
  lots = lots;
  expiry_slot = expiry_slot;
  seq = seq;
}

unfoldable pub book_insert : Side → ℕ → ℕ → ℕ → ℕ → M ℕ
book_insert s tick lots seat expiry_slot = do
  h ← gets λ b. b.header
  if (lots == 0) || ltb h.max_lots_per_order lots then fail invalid_lots else do
    idx ← alloc_node
    seq ← gets λ b. next_id b.header
    modify (with_header advance_order_seq)
    edit_node idx (set_order tick lots seat s expiry_slot seq)
    fifo_append s tick idx lots
    pure idx

unfoldable pub set_lots : ℕ → OrderNode → OrderNode
set_lots lots n = record n { lots = lots }

unfoldable pub set_expiry_slot : ℕ → OrderNode → OrderNode
set_expiry_slot expiry_slot n = record n { expiry_slot = expiry_slot }

-- A resting order of `node_lots` made smaller in place by `diff` lots.
unfoldable pub shrink : ℕ → Side → ℕ → ℕ → ℕ → ℕ → M (Unit {0})
shrink seat s tick cur lots diff = do
  unlock_for seat s tick diff
  edit_node cur (set_lots lots)
  edit_level (slot_of tick) (sub_lots diff)

-- `upsert_order` with no lots: cancel the quote at exactly this tick.
unfoldable pub cancel_quote : Option ℕ → M ℕ
cancel_quote none = fail order_not_found
cancel_quote (some cur) = do kill_order cur; pure cur

module _ (budget : ℕ) where
  -- The end of `upsert_order`: a new order at the tick.
  unfoldable pub post_order : Side → ℕ → ℕ → ℕ → ℕ → M ℕ
  post_order s tick lots seat expiry_slot = do
    ensure_order_slot seat
    lock_for seat s tick lots
    idx ← book_insert s tick lots seat expiry_slot
    chain_insert_sorted budget seat idx
    pure idx

  -- What `upsert_order` does with the quote that it found at the tick.
  unfoldable pub amend_order : Side → ℕ → ℕ → ℕ → ℕ → Option ℕ → M ℕ
  amend_order s tick lots seat expiry_slot none = post_order s tick lots seat expiry_slot
  amend_order s tick lots seat expiry_slot (some cur) = do
    node ← node_at cur
    if leb lots node.lots
        then (do
          let diff = node.lots - lots
          if ltb 0 diff then shrink seat s tick cur lots diff else pure tt
          edit_node cur (set_expiry_slot expiry_slot)
          pure cur)
        else (do kill_order cur; post_order s tick lots seat expiry_slot)

  unfoldable pub upsert_order : Side → ℕ → ℕ → ℕ → ℕ → Bool → M ℕ
  upsert_order s tick lots seat expiry_slot slide = do
    h ← gets λ b. b.header
    if lots == 0
        then (do
          at ← lift (check_or_slide_vs s tick false none h)
          cur ← find_quote budget seat s at
          cancel_quote cur)
        else (if ltb h.max_lots_per_order lots then fail invalid_lots else do
          at ← check_or_slide s tick slide
          cur ← find_quote budget seat s at
          amend_order s at lots seat expiry_slot cur)

unfoldable pub cancel_order : ℕ → ℕ → ℕ → M (Unit {0})
cancel_order seat idx expected_seq = do
  h ← gets λ b. b.header
  if (idx == nil) || leb h.order_pool_capacity idx then fail order_not_found else do
    node ← node_at idx
    if not (node.seq == expected_seq) || not (maker node == seat)
        then fail order_not_found
        else kill_order idx
