-- ===== src/Demo/Trades.antt =====
-- A taker on the small market.
use solana_orderbook.Base.{
  ◌≡◌, refl, ◌+◌, ◌≤◌, some, arith, add16, add32, add64, sub16, sub32, sub64, mul64, update,
}
use solana_orderbook.Exec.{ok, ◌>>=◌, pure, fail, gets, lift, modify, raise, loop}
use solana_orderbook.State.{bid, cancel_resting, TakeParams, TakeResult, side_index, opposite}
use solana_orderbook.Book.{
  Book, with_header, with_pool, with_level, with_seat, with_bitmap, node_at, put_node, edit_node,
  seat_at, put_seat, edit_seat, settle_seat, level_at, edit_level, edit_bitmap, bitmap, is_occupied,
  best_bid, best_ask, opposing_best, locked_atoms,
}
use solana_orderbook.State.Bounds.{IsBounded}
use solana_orderbook.Book.Take.Fill.{fill_size-fits}
use solana_orderbook.Demo.{after}
use solana_orderbook.Demo.Orders.{offered, offered-IsIndexed}
use solana_orderbook.Ledger.Taking.{Trade, take-Trade}
use solana_orderbook.Bitmap.{
  get, set, clear, below, scan_up_words, scan_up, at_least, scan_down_words, scan_down,
  next_wrapped, next_in, next_at_or_after, prev_wrapped, prev_in, prev_at_or_before, lowest,
  highest,
}
use solana_orderbook.Bitmap.Words.{
  is_zero, up_to_bit, from_bit, with_bit, without_bit, trailing_zeros, leading_zeros,
}
use solana_orderbook.Bitmap.Laws.{empty}
use solana_orderbook.State.Header.{
  notional, base_atoms, next_id, advance_order_seq, add_fees_accrued,
}
use solana_orderbook.State.Nodes.{
  add_lots, sub_lots, zero_level, maker, side, is_expired, side_flag, set_maker_and_side,
}
use solana_orderbook.State.Seats.{lock, unlock, inc_order_count, dec_order_count}
use solana_orderbook.Book.Pool.{set_free_list, freed, alloc_node, free_node}
use solana_orderbook.Book.Fifo.{
  set_links, set_next, set_prev, set_head, set_tail, fifo_append, fifo_unlink,
}
use solana_orderbook.Book.Chain.{
  quote_key, chain_key, set_maker_links, set_maker_next, set_maker_prev, set_orders_head,
  chain_unlink, chain_splice, ensure_order_slot, seek, look, chain_insert_sorted, find_quote,
}
use solana_orderbook.Book.Orders.{
  lock_for, unlock_for, kill_order, slide_off, check_or_slide_vs, check_or_slide, set_order,
  book_insert, set_lots, set_expiry_slot, shrink, cancel_quote, post_order, amend_order,
  upsert_order, cancel_order,
}
use solana_orderbook.Book.Take.{
  at_most, no_less, next_from, level_from, affordable, fill_size, settle_maker, fee_on, filled,
  consume, fill_order, self_trade_with, match_round, at_level, level_round, start_walk, take,
}

-- Seat 2 buys up to 3 lots at tick 100 or below, for at most 5,000 atoms of quote.
abbrev buy : TakeParams
buy = record {
  side = bid;
  limit_tick = 100;
  max_lots = 3;
  max_quote = 5000;
  seat = 2;
  slot = 0;
  self_trade = cancel_resting;
}

abbrev bought : Book
bought = after (take 20 buy) offered

-- 3 lots at 200 atoms, and 1 percent of it.
abbrev receipt : TakeResult
receipt = record { lots = 3; quote = 600; fee = 6 }

buy_ok : take 20 buy offered ≡ ok (receipt, bought)
unfolding ◌>>=◌ pure fail gets lift modify raise loop add16 add32 add64 sub16 sub32 sub64 mul64
    update get set clear below scan_up_words scan_up at_least scan_down_words scan_down next_wrapped
    next_in next_at_or_after prev_wrapped prev_in prev_at_or_before lowest highest is_zero up_to_bit
    from_bit with_bit without_bit trailing_zeros leading_zeros empty notional base_atoms next_id
    advance_order_seq add_lots sub_lots zero_level maker side is_expired side_flag
    set_maker_and_side lock unlock inc_order_count dec_order_count side_index with_header with_pool
    with_level with_seat with_bitmap node_at put_node edit_node seat_at put_seat edit_seat
    settle_seat level_at edit_level edit_bitmap bitmap is_occupied best_bid best_ask opposing_best
    locked_atoms set_free_list freed alloc_node free_node set_links set_next set_prev set_head
    set_tail fifo_append fifo_unlink quote_key chain_key set_maker_links set_maker_next
    set_maker_prev set_orders_head chain_unlink chain_splice ensure_order_slot seek look
    chain_insert_sorted find_quote lock_for unlock_for kill_order slide_off check_or_slide_vs
    check_or_slide set_order book_insert set_lots set_expiry_slot shrink cancel_quote post_order
    amend_order upsert_order cancel_order opposite add_fees_accrued at_most no_less next_from
    level_from affordable fill_size settle_maker fee_on filled consume fill_order self_trade_with
    match_round at_level level_round start_walk take
buy_ok = refl

offered-IsBounded : IsBounded offered.header
unfolding ◌>>=◌ pure fail gets lift modify raise loop add16 add32 add64 sub16 sub32 sub64 mul64
    update get set clear below scan_up_words scan_up at_least scan_down_words scan_down next_wrapped
    next_in next_at_or_after prev_wrapped prev_in prev_at_or_before lowest highest is_zero up_to_bit
    from_bit with_bit without_bit trailing_zeros leading_zeros empty notional base_atoms next_id
    advance_order_seq add_lots sub_lots zero_level maker side is_expired side_flag
    set_maker_and_side lock unlock inc_order_count dec_order_count side_index with_header with_pool
    with_level with_seat with_bitmap node_at put_node edit_node seat_at put_seat edit_seat
    settle_seat level_at edit_level edit_bitmap bitmap is_occupied best_bid best_ask opposing_best
    locked_atoms set_free_list freed alloc_node free_node set_links set_next set_prev set_head
    set_tail fifo_append fifo_unlink quote_key chain_key set_maker_links set_maker_next
    set_maker_prev set_orders_head chain_unlink chain_splice ensure_order_slot seek look
    chain_insert_sorted find_quote lock_for unlock_for kill_order slide_off check_or_slide_vs
    check_or_slide set_order book_insert set_lots set_expiry_slot shrink cancel_quote post_order
    amend_order upsert_order cancel_order
offered-IsBounded = record {
  window = omega arith;
  ticks = omega arith;
  value = omega arith;
  base = omega arith;
  fee = omega arith;
  lots = omega arith;
}

take-Trade_example : Trade offered buy receipt bought
take-Trade_example =
    take-Trade offered buy offered-IsBounded 20 bought receipt offered-IsIndexed (omega arith)
      buy_ok

-- A budget of 1,000 pays for 4 lots of 200 with their fee, and not for 5.
fill_4 : fill_size 1000 100 200 9 (start_walk 8) ≡ some 4
unfolding ◌>>=◌ pure fail gets lift modify raise loop add16 add32 add64 sub16 sub32 sub64 mul64
    update get set clear below scan_up_words scan_up at_least scan_down_words scan_down next_wrapped
    next_in next_at_or_after prev_wrapped prev_in prev_at_or_before lowest highest is_zero up_to_bit
    from_bit with_bit without_bit trailing_zeros leading_zeros empty notional base_atoms next_id
    advance_order_seq add_lots sub_lots zero_level maker side is_expired side_flag
    set_maker_and_side lock unlock inc_order_count dec_order_count side_index with_header with_pool
    with_level with_seat with_bitmap node_at put_node edit_node seat_at put_seat edit_seat
    settle_seat level_at edit_level edit_bitmap bitmap is_occupied best_bid best_ask opposing_best
    locked_atoms set_free_list freed alloc_node free_node set_links set_next set_prev set_head
    set_tail fifo_append fifo_unlink quote_key chain_key set_maker_links set_maker_next
    set_maker_prev set_orders_head chain_unlink chain_splice ensure_order_slot seek look
    chain_insert_sorted find_quote lock_for unlock_for kill_order slide_off check_or_slide_vs
    check_or_slide set_order book_insert set_lots set_expiry_slot shrink cancel_quote post_order
    amend_order upsert_order cancel_order opposite add_fees_accrued at_most no_less next_from
    level_from affordable fill_size settle_maker fee_on filled consume fill_order self_trade_with
    match_round at_level level_round start_walk take
fill_4 = refl

fill_size-fits_example :
    (start_walk 8).res.quote + mul64 200 4 + ((start_walk 8).res.fee + fee_on 100 (mul64 200 4))
    ≤ 1000
unfolding start_walk
fill_size-fits_example =
    fill_size-fits 1000 100 200 9 (start_walk 8) 4 (omega arith) (omega arith) (omega arith) fill_4
