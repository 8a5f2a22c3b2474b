-- ===== src/Demo/Worlds.antt =====
-- The small market among token accounts, and a swap on it.
use solana_orderbook.Book.Index.{IsIndexed}
use solana_orderbook.Solvency.Program.{IsSolvent, process_instruction-IsSolvent}
use solana_orderbook.Solvency.Reach.{here, next, instruction, Reach-IsSolvent}
use solana_orderbook.Base.{
  ℕ, ◌≡◌, refl, true, false, List, [], ◌∷◌, ◌+◌, ◌==◌, if◌then◌else◌, arith, add16, add32, add64,
  sub16, sub32, sub64, mul64, update, sum_below,
}
use solana_orderbook.Base.Bytes.{from_le, to_le}
use solana_orderbook.Demo.Orders.{offered, offered-IsIndexed}
use solana_orderbook.Demo.Tokens.{token_demo, token_demo-Custody, held-balance}
use solana_orderbook.Exec.{Result, ok, err}
use solana_orderbook.Book.{Book}
use solana_orderbook.Bitmap.Laws.{empty}
use solana_orderbook.Runtime.{World}
use solana_orderbook.Runtime.Accounts.{AccountInfo, ProgramIds}
use solana_orderbook.Runtime.Programs.{Runtime}
use solana_orderbook.Instructions.Swap
use solana_orderbook.Instructions.VaultAccounts
use solana_orderbook.Exec.{◌>>=◌, pure, fail, gets, lift, modify, raise, loop}
use solana_orderbook.Bitmap.{
  get, set, clear, below, scan_up_words, scan_up, at_least, scan_down_words, scan_down,
  next_wrapped, next_in, next_at_or_after, prev_wrapped, prev_in, prev_at_or_before, lowest,
  highest,
}
use solana_orderbook.Bitmap.Words.{
  is_zero, up_to_bit, from_bit, with_bit, without_bit, trailing_zeros, leading_zeros,
}
use solana_orderbook.State.Header.{
  notional, base_atoms, next_id, advance_order_seq, add_fees_accrued, bump_seq,
}
use solana_orderbook.State.Nodes.{
  add_lots, sub_lots, zero_level, maker, side, is_expired, side_flag, set_maker_and_side,
}
use solana_orderbook.State.Seats.{lock, unlock, inc_order_count, dec_order_count}
use solana_orderbook.State.{side_index, opposite, try_from_u8}
use solana_orderbook.Book.{
  with_header, with_pool, with_level, with_seat, with_bitmap, node_at, put_node, edit_node, seat_at,
  put_seat, edit_seat, settle_seat, level_at, edit_level, edit_bitmap, bitmap, is_occupied,
  best_bid, best_ask, opposing_best, locked_atoms,
}
use solana_orderbook.Book.Pool.{set_free_list, freed, alloc_node, free_node}
use solana_orderbook.Book.Fifo.{
  set_links, set_next, set_prev, set_head, set_tail, fifo_append, fifo_unlink,
}
use solana_orderbook.Book.Chain.{
  quote_key, chain_key, set_maker_links, set_maker_next, set_maker_prev, set_orders_head,
  chain_unlink, chain_splice, ensure_order_slot, seek, look, chain_insert_sorted, find_quote,
}
use solana_orderbook.Book.Orders.{
  lock_for, unlock_for, kill_order, slide_off, check_or_slide_vs, check_or_slide, set_order,
  book_insert, set_lots, set_expiry_slot, shrink, cancel_quote, post_order, amend_order,
  upsert_order, cancel_order,
}
use solana_orderbook.Book.Take.{
  at_most, no_less, next_from, level_from, affordable, fill_size, settle_maker, fee_on, filled,
  consume, fill_order, self_trade_with, match_round, at_level, level_round, start_walk, take,
}
use solana_orderbook.Runtime.{
  on_book, put_book, transfer, put_tokens, amount_of, read_amount, token_amount, checked_delta,
  received,
}
use solana_orderbook.Instructions.VaultAccounts.{push, base_out, quote_out}
use solana_orderbook.Instructions.{exactly, bump}
use solana_orderbook.Runtime.Checks.{
  ◌then◌, require, writable_market, vault_checks, program_checks, token_program_id,
}
use solana_orderbook.Runtime.Accounts.{check_market}
use solana_orderbook.Instructions.Dispatch.{
  with_data, makers, payments, upkeep, listings, process_instruction,
}
use solana_orderbook.Instructions.Swap.{bid_params, ask_params, sell, lots_of, base_atoms_of}
use solana_orderbook.Ledger.{total_base, total_quote}
use solana_orderbook.Solvency.Owing.{owed_quote}

abbrev pub mine : (key : ℕ) → AccountInfo
mine key = record { key = key; is_signer = true; is_writable = true; owner = 1; data_len = 82 }

abbrev pub ids_demo : ProgramIds
ids_demo = record { program_id = 7; token_id = 8; token_2022_id = 9 }

abbrev sum_of : List ℕ → ℕ
sum_of [] = 0
sum_of (n ∷ ns) = n + sum_of ns

-- Addresses are sums of their seeds, and every account can be allocated.
abbrev pub runtime_demo : Runtime
runtime_demo = record {
  ids = ids_demo;
  associated_token_id = 10;
  slot = 0;
  budget = 200;
  find_program_address = λ seeds program. (sum_of seeds, 255);
  create_account = λ payer account len. ok tt;
}

-- The small market with an offer, in an account of 64 nodes.
abbrev pub listed : Book
listed = with_header (λ h. record h { order_pool_capacity = 64 }) offered

abbrev pub market_account : AccountInfo
market_account = record {
  key = 50;
  is_signer = false;
  is_writable = true;
  owner = 7;
  data_len = 145632;
}

abbrev pub world : World token_demo
world = record {
  book = listed;
  configs = λ key. record {
    version = 1;
    bump = 0;
    authority = 1;
    seat_authority = 2;
    market_authority = 3;
  };
  tokens = λ key. if key == 13 then 500 else (if key == 14 then 90000 else 1000);
}

abbrev pub world_after : World token_demo → Result (Unit {0} × World token_demo) → World token_demo
world_after w (ok (a, v)) = v
world_after w (err e) = w

-- A swap of 1,000 atoms of quote for base, at tick 100 or below.
abbrev accounts : List AccountInfo
accounts =
    mine 70
    ∷ (market_account
        ∷ (mine 71
            ∷ (mine 72
                ∷ (mine 13
                    ∷ (mine 14 ∷ (mine 15 ∷ (mine 11 ∷ (mine 12 ∷ (mine 8 ∷ (mine 8 ∷ []))))))))))

abbrev swap_data : List ℕ
swap_data =
    31
    ∷ (0
        ∷ (232
            ∷ (3
                ∷ (0
                    ∷ (0
                        ∷ (0
                            ∷ (0
                                ∷ (0
                                    ∷ (0
                                        ∷ (100
                                            ∷ (0
                                                ∷ (0
                                                    ∷ (0
                                                        ∷ (1
                                                            ∷ (0
                                                            ∷ (0
                                                            ∷ (0
                                                            ∷ (0
                                                            ∷ (0 ∷ (0 ∷ (0 ∷ [])))))))))))))))))))))

abbrev swapped : World token_demo
swapped = world_after world (process_instruction token_demo runtime_demo accounts swap_data world)

swap_ok : process_instruction token_demo runtime_demo accounts swap_data world ≡ ok (tt, swapped)
unfolding ◌>>=◌ pure fail gets lift modify raise loop add16 add32 add64 sub16 sub32 sub64 mul64
    update get set clear below scan_up_words scan_up at_least scan_down_words scan_down next_wrapped
    next_in next_at_or_after prev_wrapped prev_in prev_at_or_before lowest highest is_zero up_to_bit
    from_bit with_bit without_bit trailing_zeros leading_zeros empty notional base_atoms next_id
    advance_order_seq add_lots sub_lots zero_level maker side is_expired side_flag
    set_maker_and_side lock unlock inc_order_count dec_order_count side_index with_header with_pool
    with_level with_seat with_bitmap node_at put_node edit_node seat_at put_seat edit_seat
    settle_seat level_at edit_level edit_bitmap bitmap is_occupied best_bid best_ask opposing_best
    locked_atoms set_free_list freed alloc_node free_node set_links set_next set_prev set_head
    set_tail fifo_append fifo_unlink quote_key chain_key set_maker_links set_maker_next
    set_maker_prev set_orders_head chain_unlink chain_splice ensure_order_slot seek look
    chain_insert_sorted find_quote lock_for unlock_for kill_order slide_off check_or_slide_vs
    check_or_slide set_order book_insert set_lots set_expiry_slot shrink cancel_quote post_order
    amend_order upsert_order cancel_order opposite add_fees_accrued at_most no_less next_from
    level_from affordable fill_size settle_maker fee_on filled consume fill_order self_trade_with
    match_round at_level level_round start_walk take on_book put_book transfer put_tokens amount_of
    read_amount token_amount checked_delta received push exactly try_from_u8 bump bump_seq ◌then◌
    require writable_market check_market vault_checks program_checks token_program_id with_data
    makers payments upkeep listings process_instruction from_le to_le base_out quote_out
    Swap.try_from Swap.quote_in Swap.base_in bid_params ask_params sell lots_of base_atoms_of
    Swap.buy_base Swap.sell_base Swap.by_side Swap.process VaultAccounts.check_accounts
swap_ok = refl

listed-IsIndexed : IsIndexed listed
unfolding with_header
listed-IsIndexed = record { bids = offered-IsIndexed.bids; asks = offered-IsIndexed.asks }

pub world-IsSolvent : IsSolvent token_demo 13 14 world
unfolding ◌>>=◌ pure fail gets lift modify raise loop add16 add32 add64 sub16 sub32 sub64 mul64
    update get set clear below scan_up_words scan_up at_least scan_down_words scan_down next_wrapped
    next_in next_at_or_after prev_wrapped prev_in prev_at_or_before lowest highest is_zero up_to_bit
    from_bit with_bit without_bit trailing_zeros leading_zeros empty notional base_atoms next_id
    advance_order_seq add_lots sub_lots zero_level maker side is_expired side_flag
    set_maker_and_side lock unlock inc_order_count dec_order_count side_index with_header with_pool
    with_level with_seat with_bitmap node_at put_node edit_node seat_at put_seat edit_seat
    settle_seat level_at edit_level edit_bitmap bitmap is_occupied best_bid best_ask opposing_best
    locked_atoms set_free_list freed alloc_node free_node set_links set_next set_prev set_head
    set_tail fifo_append fifo_unlink quote_key chain_key set_maker_links set_maker_next
    set_maker_prev set_orders_head chain_unlink chain_splice ensure_order_slot seek look
    chain_insert_sorted find_quote lock_for unlock_for kill_order slide_off check_or_slide_vs
    check_or_slide set_order book_insert set_lots set_expiry_slot shrink cancel_quote post_order
    amend_order upsert_order cancel_order total_base total_quote owed_quote sum_below
world-IsSolvent = record {
  healthy = record {
    bounded = record {
      window = omega arith;
      ticks = omega arith;
      value = omega arith;
      base = omega arith;
      fee = omega arith;
      lots = omega arith;
    };
    aligned = refl;
    indexed = listed-IsIndexed;
    version = refl;
    base_key = refl;
    quote_key = refl;
  };
  base_funds = omega (arith, held-balance 13 world.tokens);
  quote_funds = omega (arith, held-balance 14 world.tokens);
}

process_instruction-IsSolvent_example : IsSolvent token_demo 13 14 swapped
process_instruction-IsSolvent_example =
    process_instruction-IsSolvent token_demo 13 14 runtime_demo accounts swap_data world swapped
      token_demo-Custody world-IsSolvent swap_ok

Reach-IsSolvent_example : IsSolvent token_demo 13 14 swapped
Reach-IsSolvent_example =
    Reach-IsSolvent token_demo 13 14 token_demo-Custody world swapped world-IsSolvent
      (next here (instruction runtime_demo accounts swap_data swap_ok))
