-- ===== src/Demo/Owners.antt =====
-- A cancel, sent through the dispatcher.
use solana_orderbook.Base.{
  ℕ, ◌≡◌, refl, List, [], ◌∷◌, add16, add32, add64, sub16, sub32, sub64, mul64, update,
}
use solana_orderbook.Exec.{ok}
use solana_orderbook.Bitmap.Laws.{empty}
use solana_orderbook.Demo.Tokens.{token_demo}
use solana_orderbook.Demo.Worlds.{world, world_after, runtime_demo, mine, market_account}
use solana_orderbook.Runtime.{World}
use solana_orderbook.Instructions.Cancel
use solana_orderbook.Instructions.Owners.{OwnsSeat, cancel, process_instruction-OwnsSeat}
use solana_orderbook.Exec.{◌>>=◌, pure, fail, gets, lift, modify, raise, loop}
use solana_orderbook.Bitmap.{
  get, set, clear, below, scan_up_words, scan_up, at_least, scan_down_words, scan_down,
  next_wrapped, next_in, next_at_or_after, prev_wrapped, prev_in, prev_at_or_before, lowest,
  highest,
}
use solana_orderbook.Bitmap.Words.{
  is_zero, up_to_bit, from_bit, with_bit, without_bit, trailing_zeros, leading_zeros,
}
use solana_orderbook.State.Header.{notional, base_atoms, next_id, advance_order_seq, bump_seq}
use solana_orderbook.State.Nodes.{
  add_lots, sub_lots, zero_level, maker, side, is_expired, side_flag, set_maker_and_side,
}
use solana_orderbook.State.Seats.{lock, unlock, inc_order_count, dec_order_count}
use solana_orderbook.State.{side_index}
use solana_orderbook.Book.{
  with_header, with_pool, with_level, with_seat, with_bitmap, node_at, put_node, edit_node, seat_at,
  put_seat, edit_seat, settle_seat, level_at, edit_level, edit_bitmap, bitmap, is_occupied,
  best_bid, best_ask, opposing_best, locked_atoms,
}
use solana_orderbook.Book.Pool.{set_free_list, freed, alloc_node, free_node}
use solana_orderbook.Book.Fifo.{
  set_links, set_next, set_prev, set_head, set_tail, fifo_append, fifo_unlink,
}
use solana_orderbook.Book.Chain.{
  quote_key, chain_key, set_maker_links, set_maker_next, set_maker_prev, set_orders_head,
  chain_unlink, chain_splice, ensure_order_slot, seek, look, chain_insert_sorted, find_quote,
}
use solana_orderbook.Book.Orders.{
  lock_for, unlock_for, kill_order, slide_off, check_or_slide_vs, check_or_slide, set_order,
  book_insert, set_lots, set_expiry_slot, shrink, cancel_quote, post_order, amend_order,
  upsert_order, cancel_order,
}
use solana_orderbook.Runtime.{on_book, put_book}
use solana_orderbook.Instructions.{by_owner, owner_of, exactly, bump}
use solana_orderbook.Runtime.Checks.{owner_and_market, ◌then◌, require, writable_market}
use solana_orderbook.Runtime.Accounts.{check_market}
use solana_orderbook.Instructions.Dispatch.{makers, payments, upkeep, listings, process_instruction}
use solana_orderbook.Base.Bytes.{from_le}
use solana_orderbook.Book.SeatTable.{check_seat}

-- Seat 1, node 1, order 0.
abbrev order : List ℕ
order = 1 ∷ (0 ∷ (1 ∷ (0 ∷ (0 ∷ (0 ∷ (0 ∷ (0 ∷ (0 ∷ (0 ∷ (0 ∷ (0 ∷ [])))))))))))

abbrev cancelled : World token_demo
cancelled = world_after world (
    process_instruction token_demo runtime_demo (mine 101 ∷ (market_account ∷ [])) (22 ∷ order)
      world)

cancel_ok :
    process_instruction token_demo runtime_demo
      (mine 101 ∷ (market_account ∷ []))
      (22 ∷ order)
      world
    ≡ ok (tt, cancelled)
unfolding ◌>>=◌ pure fail gets lift modify raise loop add16 add32 add64 sub16 sub32 sub64 mul64
    update get set clear below scan_up_words scan_up at_least scan_down_words scan_down next_wrapped
    next_in next_at_or_after prev_wrapped prev_in prev_at_or_before lowest highest is_zero up_to_bit
    from_bit with_bit without_bit trailing_zeros leading_zeros empty notional base_atoms next_id
    advance_order_seq add_lots sub_lots zero_level maker side is_expired side_flag
    set_maker_and_side lock unlock inc_order_count dec_order_count side_index with_header with_pool
    with_level with_seat with_bitmap node_at put_node edit_node seat_at put_seat edit_seat
    settle_seat level_at edit_level edit_bitmap bitmap is_occupied best_bid best_ask opposing_best
    locked_atoms set_free_list freed alloc_node free_node set_links set_next set_prev set_head
    set_tail fifo_append fifo_unlink quote_key chain_key set_maker_links set_maker_next
    set_maker_prev set_orders_head chain_unlink chain_splice ensure_order_slot seek look
    chain_insert_sorted find_quote lock_for unlock_for kill_order slide_off check_or_slide_vs
    check_or_slide set_order book_insert set_lots set_expiry_slot shrink cancel_quote post_order
    amend_order upsert_order cancel_order on_book put_book by_owner owner_of owner_and_market
    exactly bump bump_seq ◌then◌ require writable_market check_market makers payments upkeep
    listings process_instruction from_le check_seat Cancel.try_from Cancel.process
cancel_ok = refl

process_instruction-OwnsSeat_example : OwnsSeat (mine 101) order world.book
process_instruction-OwnsSeat_example =
    process_instruction-OwnsSeat token_demo runtime_demo (mine 101) (market_account ∷ []) order
      world 22 cancelled cancel cancel_ok
