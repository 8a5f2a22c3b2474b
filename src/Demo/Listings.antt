-- ===== src/Demo/Listings.antt =====
-- A new market, and the extensions of a mint.
use solana_orderbook.Base.{
  ℕ, ◌+◌, ◌≡◌, refl, true, List, ◌∷◌, ◌++◌, arith, add16, add32, add64, sub16, sub32, sub64, mul64,
  update,
}
use solana_orderbook.Base.Bytes.{from_le}
use solana_orderbook.Exec.{Result, ok, err}
use solana_orderbook.Exec.Errors.{clob, invalid_state}
use solana_orderbook.Book.{Book}
use solana_orderbook.Demo.{demo_header, demo_node}
use solana_orderbook.Demo.Tokens.{zeros}
use solana_orderbook.Demo.Worlds.{runtime_demo}
use solana_orderbook.Bitmap.Laws.{empty, empty-IsConsistent}
use solana_orderbook.Runtime.{TokenProgram, World}
use solana_orderbook.Runtime.Accounts.{AccountInfo}
use solana_orderbook.Runtime.Programs.{vault_seed}
use solana_orderbook.Admin.{CreateMarketInstructionData}
use solana_orderbook.Admin.Mints.Extensions.{Answers, has_permanent_delegate_bytes-Answers}
use solana_orderbook.Instructions.CreateMarket.{CreateMarketAccounts}
use solana_orderbook.Instructions.CreateMarket
use solana_orderbook.Solvency.Program.{IsSolvent}
use solana_orderbook.Solvency.Listing.{IsFresh, create_market-IsSolvent}
use solana_orderbook.Exec.{◌>>=◌, pure, fail, gets, lift, modify, raise, loop}
use solana_orderbook.Bitmap.{
  get, set, clear, below, scan_up_words, scan_up, at_least, scan_down_words, scan_down,
  next_wrapped, next_in, next_at_or_after, prev_wrapped, prev_in, prev_at_or_before, lowest,
  highest,
}
use solana_orderbook.Bitmap.Words.{
  is_zero, up_to_bit, from_bit, with_bit, without_bit, trailing_zeros, leading_zeros,
}
use solana_orderbook.State.Header.{
  notional, base_atoms, next_id, advance_order_seq, set_fee_bps, bump_seq,
}
use solana_orderbook.State.Nodes.{
  add_lots, sub_lots, zero_level, maker, side, is_expired, side_flag, set_maker_and_side,
}
use solana_orderbook.State.Seats.{lock, unlock, inc_order_count, dec_order_count}
use solana_orderbook.State.{side_index}
use solana_orderbook.Book.{
  with_header, with_pool, with_level, with_seat, with_bitmap, node_at, put_node, edit_node, seat_at,
  put_seat, edit_seat, settle_seat, level_at, edit_level, edit_bitmap, bitmap, is_occupied,
  best_bid, best_ask, opposing_best, locked_atoms,
}
use solana_orderbook.Book.Pool.{
  set_free_list, freed, alloc_node, free_node, thread, thread_free_list,
}
use solana_orderbook.Book.Fifo.{
  set_links, set_next, set_prev, set_head, set_tail, fifo_append, fifo_unlink,
}
use solana_orderbook.Book.Chain.{
  quote_key, chain_key, set_maker_links, set_maker_next, set_maker_prev, set_orders_head,
  chain_unlink, chain_splice, ensure_order_slot, seek, look, chain_insert_sorted, find_quote,
}
use solana_orderbook.Book.Orders.{
  lock_for, unlock_for, kill_order, slide_off, check_or_slide_vs, check_or_slide, set_order,
  book_insert, set_lots, set_expiry_slot, shrink, cancel_quote, post_order, amend_order,
  upsert_order, cancel_order,
}
use solana_orderbook.Admin.{
  check_params, checked_mul, is_none, limit_for, checked_mul_twice, check_limit, write_params,
  set_max_lots_per_order,
}
use solana_orderbook.Admin.Mints.{
  mint_token_program_flag, len_ok, mint_decimals, has_permanent_delegate_bytes, scan, entry_end,
}
use solana_orderbook.Runtime.Checks.{token_program_id, require, ◌then◌}
use solana_orderbook.Instructions.CreateMarket.{
  allowed, check_vault, list_market, write_market, check_mints, pool_len, capacity_of,
}
use solana_orderbook.Runtime.{put_book, on_book}
use solana_orderbook.Instructions.{bump}

-- Mints of 82 bytes, initialized, of 6 decimals.
abbrev mints : TokenProgram
mints = record {
  State = Unit;
  data_of = λ key s. zeros 44 ++ (6 ∷ (1 ∷ zeros 36));
  invoke = λ t s. err (clob invalid_state);
}

abbrev blank : Book
blank = record {
  header = record demo_header {
    version = 0;
    order_pool_capacity = 0;
    free_head = 0;
    free_count = 0;
  };
  bid_bitmap = empty;
  ask_bitmap = empty;
  levels = λ i. zero_level;
  seats = λ i. record {
    owner = 0;
    base_free = 0;
    quote_free = 0;
    base_locked = 0;
    quote_locked = 0;
    orders_head = 0;
    order_count = 0;
  };
  pool = λ i. demo_node 9;
}

abbrev before : World mints
before = record {
  book = blank;
  configs = λ key. record {
    version = 1;
    bump = 0;
    authority = 1;
    seat_authority = 2;
    market_authority = 3;
  };
  tokens = tt;
}

abbrev an_account : (key owner data_len : ℕ) → AccountInfo
an_account key owner data_len = record {
  key = key;
  is_signer = true;
  is_writable = true;
  owner = owner;
  data_len = data_len;
}

-- The vaults stand where the address derivation puts them.
abbrev parties : CreateMarketAccounts
parties = record {
  market = an_account 50 7 145632;
  base_mint = an_account 11 8 82;
  quote_mint = an_account 12 8 82;
  base_vault = vault_seed + 50 + 8 + 11;
  quote_vault = vault_seed + 50 + 8 + 12;
  authority = 16;
  config = 17;
}

abbrev terms : CreateMarketInstructionData
terms = record {
  tick_size = 2;
  base_lot_size = 3;
  anchor_tick = 64;
  fee_bps = 100;
  max_lots_per_order = 50;
}

abbrev world_after : World mints → Result (Unit {0} × World mints) → World mints
world_after w (ok (a, v)) = v
world_after w (err e) = w

abbrev opened : World mints
opened = world_after before (CreateMarket.process mints runtime_demo parties terms before)

open_ok : CreateMarket.process mints runtime_demo parties terms before ≡ ok (tt, opened)
unfolding ◌>>=◌ pure fail gets lift modify raise loop add16 add32 add64 sub16 sub32 sub64 mul64
    update get set clear below scan_up_words scan_up at_least scan_down_words scan_down next_wrapped
    next_in next_at_or_after prev_wrapped prev_in prev_at_or_before lowest highest is_zero up_to_bit
    from_bit with_bit without_bit trailing_zeros leading_zeros empty notional base_atoms next_id
    advance_order_seq add_lots sub_lots zero_level maker side is_expired side_flag
    set_maker_and_side lock unlock inc_order_count dec_order_count side_index with_header with_pool
    with_level with_seat with_bitmap node_at put_node edit_node seat_at put_seat edit_seat
    settle_seat level_at edit_level edit_bitmap bitmap is_occupied best_bid best_ask opposing_best
    locked_atoms set_free_list freed alloc_node free_node set_links set_next set_prev set_head
    set_tail fifo_append fifo_unlink quote_key chain_key set_maker_links set_maker_next
    set_maker_prev set_orders_head chain_unlink chain_splice ensure_order_slot seek look
    chain_insert_sorted find_quote lock_for unlock_for kill_order slide_off check_or_slide_vs
    check_or_slide set_order book_insert set_lots set_expiry_slot shrink cancel_quote post_order
    amend_order upsert_order cancel_order check_params checked_mul is_none limit_for
    checked_mul_twice check_limit write_params set_max_lots_per_order set_fee_bps
    mint_token_program_flag len_ok mint_decimals has_permanent_delegate_bytes scan entry_end
    token_program_id require ◌then◌ allowed check_vault list_market write_market check_mints
    pool_len capacity_of thread thread_free_list put_book on_book bump bump_seq CreateMarket.process
    from_le
open_ok = refl

blank-IsFresh : IsFresh blank
blank-IsFresh = record {
  base = λ i. refl;
  quote = λ i. refl;
  fees = refl;
  indexed = record { bids = empty-IsConsistent; asks = empty-IsConsistent };
}

create_market-IsSolvent_example :
    IsSolvent mints (vault_seed + 50 + 8 + 11) (vault_seed + 50 + 8 + 12) opened
create_market-IsSolvent_example =
    create_market-IsSolvent mints runtime_demo parties terms before opened (omega arith)
      blank-IsFresh open_ok

-- A mint with the extension 1 of two bytes, and a permanent delegate.
abbrev extended : List ℕ
extended = zeros 166 ++ (1 ∷ (0 ∷ (2 ∷ (0 ∷ (5 ∷ (5 ∷ (12 ∷ (0 ∷ (32 ∷ (0 ∷ zeros 32))))))))))

has_permanent_delegate_bytes-Answers_example :
    Answers extended 166 (has_permanent_delegate_bytes 208 extended)
has_permanent_delegate_bytes-Answers_example =
    has_permanent_delegate_bytes-Answers 208 extended (omega arith)
