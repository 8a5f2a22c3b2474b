-- ===== src/Demo/Quotes.antt =====
-- A mass quote on the small market.
use solana_orderbook.Ledger.Separate.{Apart, mass_quote_side-Apart}
use solana_orderbook.Base.{
  ◌≡◌, refl, List, [], ◌∷◌, ℕ, add16, add32, add64, sub16, sub32, sub64, mul64, update,
}
use solana_orderbook.Base.Bytes.{from_le}
use solana_orderbook.Exec.{ok, ◌>>=◌, pure, fail, gets, lift, modify, raise, loop}
use solana_orderbook.State.{ask, side_index}
use solana_orderbook.Book.{
  Book, with_header, with_pool, with_level, with_seat, with_bitmap, node_at, put_node, edit_node,
  seat_at, put_seat, edit_seat, settle_seat, level_at, edit_level, edit_bitmap, bitmap, is_occupied,
  best_bid, best_ask, opposing_best, locked_atoms,
}
use solana_orderbook.Demo.{demo, after}
use solana_orderbook.Ledger.Conserves.{Conserves}
use solana_orderbook.Ledger.Operations.{mass_quote_side-Conserves}
use solana_orderbook.Bitmap.{
  get, set, clear, below, scan_up_words, scan_up, at_least, scan_down_words, scan_down,
  next_wrapped, next_in, next_at_or_after, prev_wrapped, prev_in, prev_at_or_before, lowest,
  highest,
}
use solana_orderbook.Bitmap.Words.{
  is_zero, up_to_bit, from_bit, with_bit, without_bit, trailing_zeros, leading_zeros,
}
use solana_orderbook.Bitmap.Laws.{empty}
use solana_orderbook.State.Header.{notional, base_atoms, next_id, advance_order_seq}
use solana_orderbook.State.Nodes.{
  add_lots, sub_lots, zero_level, maker, side, is_expired, side_flag, set_maker_and_side,
}
use solana_orderbook.State.Seats.{lock, unlock, inc_order_count, dec_order_count}
use solana_orderbook.Book.Pool.{set_free_list, freed, alloc_node, free_node}
use solana_orderbook.Book.Fifo.{
  set_links, set_next, set_prev, set_head, set_tail, fifo_append, fifo_unlink,
}
use solana_orderbook.Book.Chain.{
  quote_key, chain_key, set_maker_links, set_maker_next, set_maker_prev, set_orders_head,
  chain_unlink, chain_splice, ensure_order_slot, seek, look, chain_insert_sorted, find_quote,
}
use solana_orderbook.Book.Orders.{
  lock_for, unlock_for, kill_order, slide_off, check_or_slide_vs, check_or_slide, set_order,
  book_insert, set_lots, set_expiry_slot, shrink, cancel_quote, post_order, amend_order,
  upsert_order, cancel_order,
}
use solana_orderbook.Book.MassQuote.{
  reject_on_cross, parse, same_side, hits, cur_info, next_quote, mass_quote_insert, cancel_cur,
  insert_quote, step_over, merge_equal, merge_case, merge_round, start_merge, mass_quote_side,
}

-- Quotes of 5 lots at tick 100 and 6 lots at tick 101.
abbrev payload : List ℕ
payload = 100 ∷ 0 ∷ 0 ∷ 0 ∷ 5 ∷ 0 ∷ 0 ∷ 0 ∷ 0 ∷ 101 ∷ 0 ∷ 0 ∷ 0 ∷ 6 ∷ 0 ∷ 0 ∷ 0 ∷ 0 ∷ []

abbrev quoted : Book
quoted = after (mass_quote_side 20 1 ask payload 2 0 (0, 0)) demo

quote_ok : mass_quote_side 20 1 ask payload 2 0 (0, 0) demo ≡ ok ((2, 0), quoted)
unfolding ◌>>=◌ pure fail gets lift modify raise loop add16 add32 add64 sub16 sub32 sub64 mul64
    update get set clear below scan_up_words scan_up at_least scan_down_words scan_down next_wrapped
    next_in next_at_or_after prev_wrapped prev_in prev_at_or_before lowest highest is_zero up_to_bit
    from_bit with_bit without_bit trailing_zeros leading_zeros empty notional base_atoms next_id
    advance_order_seq add_lots sub_lots zero_level maker side is_expired side_flag
    set_maker_and_side lock unlock inc_order_count dec_order_count side_index with_header with_pool
    with_level with_seat with_bitmap node_at put_node edit_node seat_at put_seat edit_seat
    settle_seat level_at edit_level edit_bitmap bitmap is_occupied best_bid best_ask opposing_best
    locked_atoms set_free_list freed alloc_node free_node set_links set_next set_prev set_head
    set_tail fifo_append fifo_unlink quote_key chain_key set_maker_links set_maker_next
    set_maker_prev set_orders_head chain_unlink chain_splice ensure_order_slot seek look
    chain_insert_sorted find_quote lock_for unlock_for kill_order slide_off check_or_slide_vs
    check_or_slide set_order book_insert set_lots set_expiry_slot shrink cancel_quote post_order
    amend_order upsert_order cancel_order from_le reject_on_cross parse same_side hits cur_info
    next_quote mass_quote_insert cancel_cur insert_quote step_over merge_equal merge_case
    merge_round start_merge mass_quote_side
quote_ok = refl

mass_quote_side-Conserves_example : Conserves demo quoted
mass_quote_side-Conserves_example =
    mass_quote_side-Conserves 20 1 ask payload 2 0 (0, 0) (2, 0) demo quoted quote_ok

mass_quote_side-Apart_example : Apart demo quoted
mass_quote_side-Apart_example =
    mass_quote_side-Apart 20 1 ask payload 2 0 (0, 0) (2, 0) demo quoted quote_ok
