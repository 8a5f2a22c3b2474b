-- ===== src/Demo/Exits.antt =====
-- A withdrawal, a listing and a mint's extensions, on the small market and on a new one.
use solana_orderbook.Base.{
  ℕ, ◌+◌, ◌≤◌, ◌≡◌, refl, arith, add16, add32, add64, sub16, sub32, sub64, mul64, update, u64_max,
}
use solana_orderbook.Exec.{ok}
use solana_orderbook.Exec.Runs.{Runs}
use solana_orderbook.State.Header.{Market}
use solana_orderbook.Demo.Tokens.{
  token_demo, token_demo-Custody, held-balance, move, moved, Balances,
}
use solana_orderbook.Demo.Worlds.{world, listed, world-IsSolvent}
use solana_orderbook.Bitmap.Laws.{empty}
use solana_orderbook.Instructions.VaultAccounts.{VaultAccounts, base_out, quote_out}
use solana_orderbook.Instructions.Withdraw.{WithdrawInstructionData, asked}
use solana_orderbook.Instructions.Withdraw
use solana_orderbook.Solvency.Exits.{IsFunded, Payable, Left, withdraw-Runs}
use solana_orderbook.Solvency.Program.{IsSolvent}
use solana_orderbook.Exec.{◌>>=◌, pure, fail, gets, lift, modify, raise, loop}
use solana_orderbook.Bitmap.{
  get, set, clear, below, scan_up_words, scan_up, at_least, scan_down_words, scan_down,
  next_wrapped, next_in, next_at_or_after, prev_wrapped, prev_in, prev_at_or_before, lowest,
  highest,
}
use solana_orderbook.Bitmap.Words.{
  is_zero, up_to_bit, from_bit, with_bit, without_bit, trailing_zeros, leading_zeros,
}
use solana_orderbook.State.Header.{notional, base_atoms, next_id, advance_order_seq}
use solana_orderbook.State.Nodes.{
  add_lots, sub_lots, zero_level, maker, side, is_expired, side_flag, set_maker_and_side,
}
use solana_orderbook.State.Seats.{lock, unlock, inc_order_count, dec_order_count}
use solana_orderbook.State.{side_index}
use solana_orderbook.Book.{
  with_header, with_pool, with_level, with_seat, with_bitmap, node_at, put_node, edit_node, seat_at,
  put_seat, edit_seat, settle_seat, level_at, edit_level, edit_bitmap, bitmap, is_occupied,
  best_bid, best_ask, opposing_best, locked_atoms,
}
use solana_orderbook.Book.Pool.{set_free_list, freed, alloc_node, free_node}
use solana_orderbook.Book.Fifo.{
  set_links, set_next, set_prev, set_head, set_tail, fifo_append, fifo_unlink,
}
use solana_orderbook.Book.Chain.{
  quote_key, chain_key, set_maker_links, set_maker_next, set_maker_prev, set_orders_head,
  chain_unlink, chain_splice, ensure_order_slot, seek, look, chain_insert_sorted, find_quote,
}
use solana_orderbook.Book.Orders.{
  lock_for, unlock_for, kill_order, slide_off, check_or_slide_vs, check_or_slide, set_order,
  book_insert, set_lots, set_expiry_slot, shrink, cancel_quote, post_order, amend_order,
  upsert_order, cancel_order,
}

-- The offering trader's accounts.
abbrev purse : VaultAccounts
purse = record {
  owner = 101;
  base_ata = 71;
  quote_ata = 72;
  base_vault = 13;
  quote_vault = 14;
  vault_authority = 15;
  base_mint = 11;
  quote_mint = 12;
  base_token_program = 8;
  quote_token_program = 8;
}

-- All free base, and no quote.
abbrev everything : WithdrawInstructionData
everything = record { seat_index = 1; base_atoms = u64_max; quote_atoms = 0 }

-- What the vaults and the trader hold of each mint fits a u64.
abbrev HasRoom : Balances → Type 0
HasRoom s = (s 13 + s 71 ≤ u64_max) × (s 14 + s 72 ≤ u64_max)

base-HasRoom :
    (amount : ℕ) (s : Balances)
    → HasRoom s
    → amount ≤ s 13
    → HasRoom (moved (base_out listed.header purse amount) s)
unfolding base_out update
base-HasRoom amount s (p, q) l = (omega (arith, p, l), q)

quote-HasRoom :
    (amount : ℕ) (s : Balances)
    → HasRoom s
    → amount ≤ s 14
    → HasRoom (moved (quote_out listed.header purse amount) s)
unfolding quote_out update
quote-HasRoom amount s (p, q) l = (p, omega (arith, q, l))

pays_base :
    (h : Market) (amount : ℕ) (s : Balances)
    → h.base_decimals ≡ 6
    → HasRoom s
    → amount ≤ s 13
    → move (base_out h purse amount) s ≡ ok (moved (base_out h purse amount) s)
unfolding base_out update
pays_base h amount s e (p, q) l = ground (arith, e, l, p)

pays_quote :
    (h : Market) (amount : ℕ) (s : Balances)
    → h.quote_decimals ≡ 6
    → HasRoom s
    → amount ≤ s 14
    → move (quote_out h purse amount) s ≡ ok (moved (quote_out h purse amount) s)
unfolding quote_out update
pays_quote h amount s e (p, q) l = ground (arith, e, l, q)

listed_decimals : (listed.header.base_decimals ≡ 6) × (listed.header.quote_decimals ≡ 6)
unfolding ◌>>=◌ pure fail gets lift modify raise loop add16 add32 add64 sub16 sub32 sub64 mul64
    update get set clear below scan_up_words scan_up at_least scan_down_words scan_down next_wrapped
    next_in next_at_or_after prev_wrapped prev_in prev_at_or_before lowest highest is_zero up_to_bit
    from_bit with_bit without_bit trailing_zeros leading_zeros empty notional base_atoms next_id
    advance_order_seq add_lots sub_lots zero_level maker side is_expired side_flag
    set_maker_and_side lock unlock inc_order_count dec_order_count side_index with_header with_pool
    with_level with_seat with_bitmap node_at put_node edit_node seat_at put_seat edit_seat
    settle_seat level_at edit_level edit_bitmap bitmap is_occupied best_bid best_ask opposing_best
    locked_atoms set_free_list freed alloc_node free_node set_links set_next set_prev set_head
    set_tail fifo_append fifo_unlink quote_key chain_key set_maker_links set_maker_next
    set_maker_prev set_orders_head chain_unlink chain_splice ensure_order_slot seek look
    chain_insert_sorted find_quote lock_for unlock_for kill_order slide_off check_or_slide_vs
    check_or_slide set_order book_insert set_lots set_expiry_slot shrink cancel_quote post_order
    amend_order upsert_order cancel_order asked
listed_decimals = (refl, refl)

payable : Payable token_demo purse listed.header world
unfolding base_out quote_out
payable = record {
  Ready = HasRoom;
  ready = (omega arith, omega arith);
  base = λ amount s r l. (
    moved (base_out listed.header purse amount) s,
    (
      base-HasRoom amount s r (omega (arith, l, held-balance 13 s)),
      pays_base listed.header amount s listed_decimals.0 r (omega (arith, l, held-balance 13 s)),
    ),
  );
  quote = λ amount s r l. (
    moved (quote_out listed.header purse amount) s,
    (
      quote-HasRoom amount s r (omega (arith, l, held-balance 14 s)),
      pays_quote listed.header amount s listed_decimals.1 r (omega (arith, l, held-balance 14 s)),
    ),
  );
}

funded : IsFunded 101 everything listed
unfolding ◌>>=◌ pure fail gets lift modify raise loop add16 add32 add64 sub16 sub32 sub64 mul64
    update get set clear below scan_up_words scan_up at_least scan_down_words scan_down next_wrapped
    next_in next_at_or_after prev_wrapped prev_in prev_at_or_before lowest highest is_zero up_to_bit
    from_bit with_bit without_bit trailing_zeros leading_zeros empty notional base_atoms next_id
    advance_order_seq add_lots sub_lots zero_level maker side is_expired side_flag
    set_maker_and_side lock unlock inc_order_count dec_order_count side_index with_header with_pool
    with_level with_seat with_bitmap node_at put_node edit_node seat_at put_seat edit_seat
    settle_seat level_at edit_level edit_bitmap bitmap is_occupied best_bid best_ask opposing_best
    locked_atoms set_free_list freed alloc_node free_node set_links set_next set_prev set_head
    set_tail fifo_append fifo_unlink quote_key chain_key set_maker_links set_maker_next
    set_maker_prev set_orders_head chain_unlink chain_splice ensure_order_slot seek look
    chain_insert_sorted find_quote lock_for unlock_for kill_order slide_off check_or_slide_vs
    check_or_slide set_order book_insert set_lots set_expiry_slot shrink cancel_quote post_order
    amend_order upsert_order cancel_order asked
funded = record { seat = omega arith; owned = refl; base = omega arith; quote = omega arith }

withdraw-Runs_example :
    Runs
      (λ _ v.
        Left token_demo 1
          (listed.seats 1)
          (asked u64_max (listed.seats 1).base_free)
          (asked 0 (listed.seats 1).quote_free)
          v
        × IsSolvent token_demo 13 14 v)
      (Withdraw.process token_demo purse everything)
      world
withdraw-Runs_example =
    withdraw-Runs token_demo purse token_demo-Custody everything world payable funded
      world-IsSolvent
