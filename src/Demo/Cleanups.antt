-- ===== src/Demo/Cleanups.antt =====
-- The window moved, and an expired order reaped, on the small market.
use solana_orderbook.Book.Sparing.{Spares, reap_expired-Spares}
use solana_orderbook.Book.Vacating.{reanchor_step-Vacates}
use solana_orderbook.Book.Vacating.{Vacant}
use solana_orderbook.Book.Anchors.{Lands, reanchor_step-Lands}
use solana_orderbook.Base.{arith}
use solana_orderbook.Base.{
  ◌≡◌, refl, false, add16, add32, add64, sub16, sub32, sub64, mul64, update,
}
use solana_orderbook.Exec.{ok, ◌>>=◌, pure, fail, gets, lift, modify, raise, loop}
use solana_orderbook.State.{ask, side_index}
use solana_orderbook.Book.{
  Book, with_header, with_pool, with_level, with_seat, with_bitmap, node_at, put_node, edit_node,
  seat_at, put_seat, edit_seat, settle_seat, level_at, edit_level, edit_bitmap, bitmap, is_occupied,
  best_bid, best_ask, opposing_best, locked_atoms,
}
use solana_orderbook.Demo.{demo, after}
use solana_orderbook.Demo.Orders.{offered}
use solana_orderbook.Ledger.Conserves.{Conserves}
use solana_orderbook.Ledger.Operations.{reap_expired-Conserves, reanchor_step-Conserves}
use solana_orderbook.Bitmap.{
  get, set, clear, below, scan_up_words, scan_up, at_least, scan_down_words, scan_down,
  next_wrapped, next_in, next_at_or_after, prev_wrapped, prev_in, prev_at_or_before, lowest,
  highest, word_empty,
}
use solana_orderbook.Bitmap.Words.{
  is_zero, up_to_bit, from_bit, with_bit, without_bit, trailing_zeros, leading_zeros,
}
use solana_orderbook.Bitmap.Laws.{empty}
use solana_orderbook.State.Header.{notional, base_atoms, next_id, advance_order_seq}
use solana_orderbook.State.Nodes.{
  add_lots, sub_lots, zero_level, maker, side, is_expired, side_flag, set_maker_and_side,
}
use solana_orderbook.State.Seats.{lock, unlock, inc_order_count, dec_order_count}
use solana_orderbook.Book.Pool.{set_free_list, freed, alloc_node, free_node}
use solana_orderbook.Book.Fifo.{
  set_links, set_next, set_prev, set_head, set_tail, fifo_append, fifo_unlink,
}
use solana_orderbook.Book.Chain.{
  quote_key, chain_key, set_maker_links, set_maker_next, set_maker_prev, set_orders_head,
  chain_unlink, chain_splice, ensure_order_slot, seek, look, chain_insert_sorted, find_quote,
}
use solana_orderbook.Book.Orders.{
  lock_for, unlock_for, kill_order, slide_off, check_or_slide_vs, check_or_slide, set_order,
  book_insert, set_lots, set_expiry_slot, shrink, cancel_quote, post_order, amend_order,
  upsert_order, cancel_order,
}
use solana_orderbook.Book.Hygiene.{
  evict_round, set_anchor_tick, ideal_anchor, evict_level, evict_side, vacate_round, vacate_word,
  slide_up, slide_down, reanchor_step, reap_round, after_level, reap_level, reap_levels,
  reap_expired,
}

-- Seat 1 offers 5 lots at tick 100, good until slot 7.
abbrev expiring : Book
expiring = after (upsert_order 20 ask 100 5 1 7 false) demo

expiring_ok : upsert_order 20 ask 100 5 1 7 false demo ≡ ok (1, expiring)
unfolding ◌>>=◌ pure fail gets lift modify raise loop add16 add32 add64 sub16 sub32 sub64 mul64
    update get set clear below scan_up_words scan_up at_least scan_down_words scan_down next_wrapped
    next_in next_at_or_after prev_wrapped prev_in prev_at_or_before lowest highest is_zero up_to_bit
    from_bit with_bit without_bit trailing_zeros leading_zeros empty notional base_atoms next_id
    advance_order_seq add_lots sub_lots zero_level maker side is_expired side_flag
    set_maker_and_side lock unlock inc_order_count dec_order_count side_index with_header with_pool
    with_level with_seat with_bitmap node_at put_node edit_node seat_at put_seat edit_seat
    settle_seat level_at edit_level edit_bitmap bitmap is_occupied best_bid best_ask opposing_best
    locked_atoms set_free_list freed alloc_node free_node set_links set_next set_prev set_head
    set_tail fifo_append fifo_unlink quote_key chain_key set_maker_links set_maker_next
    set_maker_prev set_orders_head chain_unlink chain_splice ensure_order_slot seek look
    chain_insert_sorted find_quote lock_for unlock_for kill_order slide_off check_or_slide_vs
    check_or_slide set_order book_insert set_lots set_expiry_slot shrink cancel_quote post_order
    amend_order upsert_order cancel_order
expiring_ok = refl

abbrev reaped : Book
reaped = after (reap_expired 20 ask 0 3 10) expiring

reap_ok : reap_expired 20 ask 0 3 10 expiring ≡ ok (1, reaped)
unfolding ◌>>=◌ pure fail gets lift modify raise loop add16 add32 add64 sub16 sub32 sub64 mul64
    update get set clear below scan_up_words scan_up at_least scan_down_words scan_down next_wrapped
    next_in next_at_or_after prev_wrapped prev_in prev_at_or_before lowest highest is_zero up_to_bit
    from_bit with_bit without_bit trailing_zeros leading_zeros empty notional base_atoms next_id
    advance_order_seq add_lots sub_lots zero_level maker side is_expired side_flag
    set_maker_and_side lock unlock inc_order_count dec_order_count side_index with_header with_pool
    with_level with_seat with_bitmap node_at put_node edit_node seat_at put_seat edit_seat
    settle_seat level_at edit_level edit_bitmap bitmap is_occupied best_bid best_ask opposing_best
    locked_atoms set_free_list freed alloc_node free_node set_links set_next set_prev set_head
    set_tail fifo_append fifo_unlink quote_key chain_key set_maker_links set_maker_next
    set_maker_prev set_orders_head chain_unlink chain_splice ensure_order_slot seek look
    chain_insert_sorted find_quote lock_for unlock_for kill_order slide_off check_or_slide_vs
    check_or_slide set_order book_insert set_lots set_expiry_slot shrink cancel_quote post_order
    amend_order upsert_order cancel_order evict_round set_anchor_tick ideal_anchor evict_level
    evict_side vacate_round vacate_word slide_up slide_down reanchor_step word_empty reap_round
    after_level reap_level reap_levels reap_expired
reap_ok = refl

reap_expired-Conserves_example : Conserves expiring reaped
reap_expired-Conserves_example = reap_expired-Conserves 20 ask 0 3 10 expiring reaped 1 reap_ok

reap_expired-Spares_example : Spares 10 expiring reaped
reap_expired-Spares_example = reap_expired-Spares 20 ask 0 3 10 expiring reaped 1 reap_ok

-- The window moves up by two words; the order at tick 100 is in the first.
abbrev moved : Book
moved = after (reanchor_step 70 192 10) offered

move_ok : reanchor_step 70 192 10 offered ≡ ok ((1, 192), moved)
unfolding ◌>>=◌ pure fail gets lift modify raise loop add16 add32 add64 sub16 sub32 sub64 mul64
    update get set clear below scan_up_words scan_up at_least scan_down_words scan_down next_wrapped
    next_in next_at_or_after prev_wrapped prev_in prev_at_or_before lowest highest is_zero up_to_bit
    from_bit with_bit without_bit trailing_zeros leading_zeros empty notional base_atoms next_id
    advance_order_seq add_lots sub_lots zero_level maker side is_expired side_flag
    set_maker_and_side lock unlock inc_order_count dec_order_count side_index with_header with_pool
    with_level with_seat with_bitmap node_at put_node edit_node seat_at put_seat edit_seat
    settle_seat level_at edit_level edit_bitmap bitmap is_occupied best_bid best_ask opposing_best
    locked_atoms set_free_list freed alloc_node free_node set_links set_next set_prev set_head
    set_tail fifo_append fifo_unlink quote_key chain_key set_maker_links set_maker_next
    set_maker_prev set_orders_head chain_unlink chain_splice ensure_order_slot seek look
    chain_insert_sorted find_quote lock_for unlock_for kill_order slide_off check_or_slide_vs
    check_or_slide set_order book_insert set_lots set_expiry_slot shrink cancel_quote post_order
    amend_order upsert_order cancel_order evict_round set_anchor_tick ideal_anchor evict_level
    evict_side vacate_round vacate_word slide_up slide_down reanchor_step word_empty reap_round
    after_level reap_level reap_levels reap_expired
move_ok = refl

reanchor_step-Conserves_example : Conserves offered moved
reanchor_step-Conserves_example = reanchor_step-Conserves 70 192 10 offered moved (1, 192) move_ok

reanchor_step-Vacates_example : Vacant offered.header.anchor_tick 192 moved
unfolding ◌>>=◌ pure fail gets lift modify raise loop add16 add32 add64 sub16 sub32 sub64 mul64
    update get set clear below scan_up_words scan_up at_least scan_down_words scan_down next_wrapped
    next_in next_at_or_after prev_wrapped prev_in prev_at_or_before lowest highest is_zero up_to_bit
    from_bit with_bit without_bit trailing_zeros leading_zeros empty notional base_atoms next_id
    advance_order_seq add_lots sub_lots zero_level maker side is_expired side_flag
    set_maker_and_side lock unlock inc_order_count dec_order_count side_index with_header with_pool
    with_level with_seat with_bitmap node_at put_node edit_node seat_at put_seat edit_seat
    settle_seat level_at edit_level edit_bitmap bitmap is_occupied best_bid best_ask opposing_best
    locked_atoms set_free_list freed alloc_node free_node set_links set_next set_prev set_head
    set_tail fifo_append fifo_unlink quote_key chain_key set_maker_links set_maker_next
    set_maker_prev set_orders_head chain_unlink chain_splice ensure_order_slot seek look
    chain_insert_sorted find_quote lock_for unlock_for kill_order slide_off check_or_slide_vs
    check_or_slide set_order book_insert set_lots set_expiry_slot shrink cancel_quote post_order
    amend_order upsert_order cancel_order
reanchor_step-Vacates_example =
    reanchor_step-Vacates 70 192 10 offered refl (omega arith) (omega arith) 1 192 moved move_ok

reanchor_step-Lands_example : Lands 192 offered 192 moved
unfolding ◌>>=◌ pure fail gets lift modify raise loop add16 add32 add64 sub16 sub32 sub64 mul64
    update get set clear below scan_up_words scan_up at_least scan_down_words scan_down next_wrapped
    next_in next_at_or_after prev_wrapped prev_in prev_at_or_before lowest highest is_zero up_to_bit
    from_bit with_bit without_bit trailing_zeros leading_zeros empty notional base_atoms next_id
    advance_order_seq add_lots sub_lots zero_level maker side is_expired side_flag
    set_maker_and_side lock unlock inc_order_count dec_order_count side_index with_header with_pool
    with_level with_seat with_bitmap node_at put_node edit_node seat_at put_seat edit_seat
    settle_seat level_at edit_level edit_bitmap bitmap is_occupied best_bid best_ask opposing_best
    locked_atoms set_free_list freed alloc_node free_node set_links set_next set_prev set_head
    set_tail fifo_append fifo_unlink quote_key chain_key set_maker_links set_maker_next
    set_maker_prev set_orders_head chain_unlink chain_splice ensure_order_slot seek look
    chain_insert_sorted find_quote lock_for unlock_for kill_order slide_off check_or_slide_vs
    check_or_slide set_order book_insert set_lots set_expiry_slot shrink cancel_quote post_order
    amend_order upsert_order cancel_order
reanchor_step-Lands_example =
    reanchor_step-Lands 70 192 10 offered refl (omega arith) (omega arith) 1 192 moved move_ok
