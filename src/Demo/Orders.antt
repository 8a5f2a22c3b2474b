-- ===== src/Demo/Orders.antt =====
-- Orders placed and cancelled on the small market.
use solana_orderbook.Book.Occupancy.Leaving.{Vacated, cancel_order-Vacates}
use solana_orderbook.Ledger.Separate.{Apart, upsert_order-Apart, cancel_order-Apart}
use solana_orderbook.Book.Claims.{Claims, claim_seat-Claims}
use solana_orderbook.Book.SeatTable.{claim_seat, first_free, grant, grant_at}
use solana_orderbook.Book.Identity.{cancel_order-free_node}
use solana_orderbook.Exec.{err}
use solana_orderbook.Exec.Errors.{clob, order_not_found}
use solana_orderbook.State.Locks.{unlock-lock}
use solana_orderbook.State.Seats.{Seat, lock, unlock, is_free}
use solana_orderbook.Demo.{demo_header, demo_seat}
use solana_orderbook.Base.{
  ◌+◌, ◌≡◌, refl, true, false, arith, add16, add32, add64, sub16, sub32, sub64, mul64, update,
}
use solana_orderbook.Exec.{ok, ◌>>=◌, pure, fail, gets, lift, modify, raise, loop}
use solana_orderbook.State.{bid, ask, side_index}
use solana_orderbook.Book.{
  Book, with_header, with_pool, with_level, with_seat, with_bitmap, node_at, put_node, edit_node,
  seat_at, put_seat, edit_seat, settle_seat, level_at, edit_level, edit_bitmap, bitmap, is_occupied,
  best_bid, best_ask, opposing_best, locked_atoms,
}
use solana_orderbook.Book.Orders.{
  upsert_order, cancel_order, check_or_slide, lock_for, unlock_for, kill_order, slide_off,
  check_or_slide_vs, set_order, book_insert, set_lots, set_expiry_slot, shrink, cancel_quote,
  post_order, amend_order,
}
use solana_orderbook.Book.Index.{IsIndexed, upsert_order-IsIndexed}
use solana_orderbook.Book.Crossing.{
  Admits, check_or_slide-Admits, best_ask-IsLowest, best_bid-IsHighest,
}
use solana_orderbook.Bitmap.Scan.{IsLowest, IsHighest}
use solana_orderbook.Bitmap.Laws.{empty-IsConsistent, empty}
use solana_orderbook.Demo.{demo, after}
use solana_orderbook.Ledger.Conserves.{Conserves}
use solana_orderbook.Ledger.Operations.{upsert_order-Conserves, cancel_order-Conserves}
use solana_orderbook.Bitmap.{
  get, set, clear, below, scan_up_words, scan_up, at_least, scan_down_words, scan_down,
  next_wrapped, next_in, next_at_or_after, prev_wrapped, prev_in, prev_at_or_before, lowest,
  highest,
}
use solana_orderbook.Bitmap.Words.{
  is_zero, up_to_bit, from_bit, with_bit, without_bit, trailing_zeros, leading_zeros,
}
use solana_orderbook.State.Header.{notional, base_atoms, next_id, advance_order_seq}
use solana_orderbook.State.Nodes.{
  add_lots, sub_lots, zero_level, maker, side, is_expired, side_flag, set_maker_and_side,
}
use solana_orderbook.State.Seats.{lock, unlock, inc_order_count, dec_order_count}
use solana_orderbook.Book.Pool.{set_free_list, freed, alloc_node, free_node}
use solana_orderbook.Book.Fifo.{
  set_links, set_next, set_prev, set_head, set_tail, fifo_append, fifo_unlink,
}
use solana_orderbook.Book.Chain.{
  quote_key, chain_key, set_maker_links, set_maker_next, set_maker_prev, set_orders_head,
  chain_unlink, chain_splice, ensure_order_slot, seek, look, chain_insert_sorted, find_quote,
}

-- Seat 1 offers 5 lots at tick 100.
abbrev pub offered : Book
offered = after (upsert_order 20 ask 100 5 1 0 false) demo

pub offer_ok : upsert_order 20 ask 100 5 1 0 false demo ≡ ok (1, offered)
unfolding ◌>>=◌ pure fail gets lift modify raise loop add16 add32 add64 sub16 sub32 sub64 mul64
    update get set clear below scan_up_words scan_up at_least scan_down_words scan_down next_wrapped
    next_in next_at_or_after prev_wrapped prev_in prev_at_or_before lowest highest is_zero up_to_bit
    from_bit with_bit without_bit trailing_zeros leading_zeros empty notional base_atoms next_id
    advance_order_seq add_lots sub_lots zero_level maker side is_expired side_flag
    set_maker_and_side lock unlock inc_order_count dec_order_count side_index with_header with_pool
    with_level with_seat with_bitmap node_at put_node edit_node seat_at put_seat edit_seat
    settle_seat level_at edit_level edit_bitmap bitmap is_occupied best_bid best_ask opposing_best
    locked_atoms set_free_list freed alloc_node free_node set_links set_next set_prev set_head
    set_tail fifo_append fifo_unlink quote_key chain_key set_maker_links set_maker_next
    set_maker_prev set_orders_head chain_unlink chain_splice ensure_order_slot seek look
    chain_insert_sorted find_quote lock_for unlock_for kill_order slide_off check_or_slide_vs
    check_or_slide set_order book_insert set_lots set_expiry_slot shrink cancel_quote post_order
    amend_order upsert_order cancel_order
offer_ok = refl

pub demo-IsIndexed : IsIndexed demo
demo-IsIndexed = record { bids = empty-IsConsistent; asks = empty-IsConsistent }

pub offered-IsIndexed : IsIndexed offered
offered-IsIndexed =
    upsert_order-IsIndexed 20 ask 100 5 1 0 false demo offered 1 offer_ok demo-IsIndexed

upsert_order-Conserves_example : Conserves demo offered
upsert_order-Conserves_example =
    upsert_order-Conserves 20 ask 100 5 1 0 false demo offered 1 offer_ok

abbrev cancelled : Book
cancelled = after (cancel_order 1 1 0) offered

cancel_ok : cancel_order 1 1 0 offered ≡ ok (tt, cancelled)
unfolding ◌>>=◌ pure fail gets lift modify raise loop add16 add32 add64 sub16 sub32 sub64 mul64
    update get set clear below scan_up_words scan_up at_least scan_down_words scan_down next_wrapped
    next_in next_at_or_after prev_wrapped prev_in prev_at_or_before lowest highest is_zero up_to_bit
    from_bit with_bit without_bit trailing_zeros leading_zeros empty notional base_atoms next_id
    advance_order_seq add_lots sub_lots zero_level maker side is_expired side_flag
    set_maker_and_side lock unlock inc_order_count dec_order_count side_index with_header with_pool
    with_level with_seat with_bitmap node_at put_node edit_node seat_at put_seat edit_seat
    settle_seat level_at edit_level edit_bitmap bitmap is_occupied best_bid best_ask opposing_best
    locked_atoms set_free_list freed alloc_node free_node set_links set_next set_prev set_head
    set_tail fifo_append fifo_unlink quote_key chain_key set_maker_links set_maker_next
    set_maker_prev set_orders_head chain_unlink chain_splice ensure_order_slot seek look
    chain_insert_sorted find_quote lock_for unlock_for kill_order slide_off check_or_slide_vs
    check_or_slide set_order book_insert set_lots set_expiry_slot shrink cancel_quote post_order
    amend_order upsert_order cancel_order
cancel_ok = refl

cancel_order-Conserves_example : Conserves offered cancelled
cancel_order-Conserves_example = cancel_order-Conserves 1 1 0 offered cancelled cancel_ok

cancel_order-Vacates_example : Vacated (offered.pool 1) offered cancelled
cancel_order-Vacates_example = cancel_order-Vacates 1 1 0 offered cancelled cancel_ok

abbrev posted : Book
posted = after (post_order 20 ask 100 5 1 0) demo

-- A bid at the price of the offer slides to the tick below it.
slide_ok : check_or_slide bid 100 true offered ≡ ok (99, offered)
unfolding ◌>>=◌ pure fail gets lift modify raise loop add16 add32 add64 sub16 sub32 sub64 mul64
    update get set clear below scan_up_words scan_up at_least scan_down_words scan_down next_wrapped
    next_in next_at_or_after prev_wrapped prev_in prev_at_or_before lowest highest is_zero up_to_bit
    from_bit with_bit without_bit trailing_zeros leading_zeros empty notional base_atoms next_id
    advance_order_seq add_lots sub_lots zero_level maker side is_expired side_flag
    set_maker_and_side lock unlock inc_order_count dec_order_count side_index with_header with_pool
    with_level with_seat with_bitmap node_at put_node edit_node seat_at put_seat edit_seat
    settle_seat level_at edit_level edit_bitmap bitmap is_occupied best_bid best_ask opposing_best
    locked_atoms set_free_list freed alloc_node free_node set_links set_next set_prev set_head
    set_tail fifo_append fifo_unlink quote_key chain_key set_maker_links set_maker_next
    set_maker_prev set_orders_head chain_unlink chain_splice ensure_order_slot seek look
    chain_insert_sorted find_quote lock_for unlock_for kill_order slide_off check_or_slide_vs
    check_or_slide set_order book_insert set_lots set_expiry_slot shrink cancel_quote post_order
    amend_order upsert_order cancel_order
slide_ok = refl

same_anchor : offered.header.anchor_tick ≡ 64
unfolding ◌>>=◌ pure fail gets lift modify raise loop add16 add32 add64 sub16 sub32 sub64 mul64
    update get set clear below scan_up_words scan_up at_least scan_down_words scan_down next_wrapped
    next_in next_at_or_after prev_wrapped prev_in prev_at_or_before lowest highest is_zero up_to_bit
    from_bit with_bit without_bit trailing_zeros leading_zeros empty notional base_atoms next_id
    advance_order_seq add_lots sub_lots zero_level maker side is_expired side_flag
    set_maker_and_side lock unlock inc_order_count dec_order_count side_index with_header with_pool
    with_level with_seat with_bitmap node_at put_node edit_node seat_at put_seat edit_seat
    settle_seat level_at edit_level edit_bitmap bitmap is_occupied best_bid best_ask opposing_best
    locked_atoms set_free_list freed alloc_node free_node set_links set_next set_prev set_head
    set_tail fifo_append fifo_unlink quote_key chain_key set_maker_links set_maker_next
    set_maker_prev set_orders_head chain_unlink chain_splice ensure_order_slot seek look
    chain_insert_sorted find_quote lock_for unlock_for kill_order slide_off check_or_slide_vs
    check_or_slide set_order book_insert set_lots set_expiry_slot shrink cancel_quote post_order
    amend_order upsert_order cancel_order
same_anchor = refl

check_or_slide-Admits_example : Admits bid 100 99 offered × (offered ≡ offered)
check_or_slide-Admits_example =
    check_or_slide-Admits bid 100 99 true offered offered offered-IsIndexed
      (rw same_anchor (omega arith)) slide_ok

best_ask-IsLowest_example :
    IsLowest
      (get offered.ask_bitmap)
      offered.header.anchor_tick
      (offered.header.anchor_tick + 8192)
      (best_ask offered)
best_ask-IsLowest_example =
    best_ask-IsLowest offered offered-IsIndexed (rw same_anchor (omega arith))

best_bid-IsHighest_example :
    IsHighest
      (get offered.bid_bitmap)
      (offered.header.anchor_tick + 8191)
      offered.header.anchor_tick
      (best_bid offered)
best_bid-IsHighest_example =
    best_bid-IsHighest offered offered-IsIndexed (rw same_anchor (omega arith))

upsert_order-Apart_example : Apart demo offered
upsert_order-Apart_example = upsert_order-Apart 20 ask 100 5 1 0 false demo offered 1 offer_ok

cancel_order-Apart_example : Apart offered cancelled
cancel_order-Apart_example = cancel_order-Apart 1 1 0 offered cancelled cancel_ok

abbrev claimed : Book
claimed = after (claim_seat 777) demo

claim_ok : claim_seat 777 demo ≡ ok (0, claimed)
unfolding claim_seat first_free grant grant_at is_free edit_seat seat_at put_seat with_seat gets
    modify pure ◌>>=◌ raise fail
claim_ok = refl

claim_seat-Claims_example : Claims 777 demo 0 claimed
claim_seat-Claims_example = claim_seat-Claims 777 0 demo claimed claim_ok

abbrev recycled : Book
recycled = after (free_node 3) demo

free_ok : free_node 3 demo ≡ ok (tt, recycled)
unfolding ◌>>=◌ pure fail gets lift modify raise loop add16 add32 add64 sub16 sub32 sub64 mul64
    update get set clear below scan_up_words scan_up at_least scan_down_words scan_down next_wrapped
    next_in next_at_or_after prev_wrapped prev_in prev_at_or_before lowest highest is_zero up_to_bit
    from_bit with_bit without_bit trailing_zeros leading_zeros empty notional base_atoms next_id
    advance_order_seq add_lots sub_lots zero_level maker side is_expired side_flag
    set_maker_and_side lock unlock inc_order_count dec_order_count side_index with_header with_pool
    with_level with_seat with_bitmap node_at put_node edit_node seat_at put_seat edit_seat
    settle_seat level_at edit_level edit_bitmap bitmap is_occupied best_bid best_ask opposing_best
    locked_atoms set_free_list freed alloc_node free_node set_links set_next set_prev set_head
    set_tail fifo_append fifo_unlink quote_key chain_key set_maker_links set_maker_next
    set_maker_prev set_orders_head chain_unlink chain_splice ensure_order_slot seek look
    chain_insert_sorted find_quote lock_for unlock_for kill_order slide_off check_or_slide_vs
    check_or_slide set_order book_insert set_lots set_expiry_slot shrink cancel_quote post_order
    amend_order upsert_order cancel_order
free_ok = refl

cancel_order-free_node_example :
    cancel_order 1 3 (next_id demo_header) recycled ≡ err (clob order_not_found)
cancel_order-free_node_example = cancel_order-free_node 1 3 demo_header demo recycled free_ok

-- Seat 1 locks 40 of its 500 atoms of base.
abbrev locked : Seat
locked = record (demo_seat 1) { base_free = 460; base_locked = 40 }

lock_ok : lock true 40 (demo_seat 1) ≡ ok locked
unfolding lock add64
lock_ok = refl

unlock-lock_example : unlock true 40 locked ≡ ok (demo_seat 1)
unlock-lock_example =
    unlock-lock true 40 (demo_seat 1) locked (record { base = omega arith; quote = omega arith })
      lock_ok
