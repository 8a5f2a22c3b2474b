-- ===== src/Instructions/Swap.antt =====
-- program/src/taker/swap.rs.
use solana_orderbook.Base.{
  ℕ, ◌/◌, min, false, List, ◌==◌, ltb, if◌then◌else◌, u64_max, add64, sub64,
}
use solana_orderbook.Base.Bytes.{u8_at, u32_at, u64_at}
use solana_orderbook.Exec.{Exec, Result, ok, pure, raise, fail, gets, ◌>>=◌, ◌>>◌, continue_with}
use solana_orderbook.Exec.Errors.{panicked, slippage_exceeded}
use solana_orderbook.State.{
  Side, bid, ask, try_from_u8, TakeParams, TakeResult, cancel_resting, no_lots,
}
use solana_orderbook.State.Constants.{no_seat}
use solana_orderbook.State.Header.{Market, base_atoms}
use solana_orderbook.Book.{M}
use solana_orderbook.Book.Take.{take}
use solana_orderbook.Runtime.{CheckedTransfer, TokenProgram, World, on_book, transfer, received}
use solana_orderbook.Instructions.{exactly, bump}
use solana_orderbook.Instructions.VaultAccounts.{VaultAccounts, base_out, quote_out, push}

pub record SwapInstructionData : Type 0 where
  pub side : Side
  pub amount_in : ℕ
  pub limit_tick : ℕ
  pub min_out : ℕ

unfoldable pub try_from : List ℕ → Result SwapInstructionData
try_from bytes = exactly 21 bytes (
    continue_with (try_from_u8 (u8_at 0 bytes)) λ side. ok (record {
      side = side;
      amount_in = u64_at 1 bytes;
      limit_tick = u32_at 9 bytes;
      min_out = u64_at 13 bytes;
    }))

-- The leg that the user pays.
unfoldable pub quote_in : Market → VaultAccounts → ℕ → CheckedTransfer
quote_in h a amount = record {
  token_program = a.quote_token_program;
  from = a.quote_ata;
  mint = a.quote_mint;
  to = a.quote_vault;
  authority = a.owner;
  amount = amount;
  decimals = h.quote_decimals;
  signed = false;
}

unfoldable pub base_in : Market → VaultAccounts → ℕ → CheckedTransfer
base_in h a amount = record {
  token_program = a.base_token_program;
  from = a.base_ata;
  mint = a.base_mint;
  to = a.base_vault;
  authority = a.owner;
  amount = amount;
  decimals = h.base_decimals;
  signed = false;
}

-- The parameters of the match: for as many quote atoms, or for as many lots.
unfoldable pub bid_params : SwapInstructionData → ℕ → ℕ → ℕ → TakeParams
bid_params d slot max_lots delta = record {
  side = bid;
  limit_tick = d.limit_tick;
  max_lots = max_lots;
  max_quote = delta;
  seat = no_seat;
  slot = slot;
  self_trade = cancel_resting;
}

unfoldable pub ask_params : SwapInstructionData → ℕ → ℕ → TakeParams
ask_params d slot max_lots = record {
  side = ask;
  limit_tick = d.limit_tick;
  max_lots = max_lots;
  max_quote = u64_max;
  seat = no_seat;
  slot = slot;
  self_trade = cancel_resting;
}

-- Nothing to match for less than a lot.
unfoldable pub sell : ℕ → SwapInstructionData → ℕ → ℕ → M TakeResult
sell budget d slot max_lots =
    if max_lots == 0 then pure no_lots else take budget (ask_params d slot max_lots)

-- The lots of an amount of base, at most those of an order. A lot of no atoms panics.
unfoldable pub lots_of : ℕ → M ℕ
lots_of delta = do
  h ← gets λ b. b.header
  if h.base_lot_size == 0
      then raise panicked
      else pure (min (delta / h.base_lot_size) h.max_lots_per_order)

unfoldable pub base_atoms_of : ℕ → M ℕ
base_atoms_of lots = gets λ b. base_atoms b.header lots

module _ (T : TokenProgram) (budget slot : ℕ) (h : Market) (a : VaultAccounts)
    (d : SwapInstructionData) where
  unfoldable pub buy_base : Exec (World T) (Unit {0})
  unfolding base_atoms_of
  buy_base = do
    delta ← received T (quote_in h a d.amount_in)
    res ← on_book T (take budget (bid_params d slot h.max_lots_per_order delta))
    on_book T bump
    base ← on_book T (base_atoms_of res.lots)
    if ltb base d.min_out then fail slippage_exceeded else pure tt
    push T (quote_out h a (sub64 delta (add64 res.quote res.fee)))
    transfer T (base_out h a base)

  unfoldable pub sell_base : Exec (World T) (Unit {0})
  unfolding sell lots_of base_atoms_of
  sell_base = do
    delta ← received T (base_in h a d.amount_in)
    max_lots ← on_book T (lots_of delta)
    res ← on_book T (sell budget d slot max_lots)
    on_book T bump
    if ltb (sub64 res.quote res.fee) d.min_out then fail slippage_exceeded else pure tt
    base ← on_book T (base_atoms_of res.lots)
    push T (base_out h a (sub64 delta base))
    transfer T (quote_out h a (sub64 res.quote res.fee))

-- The arm for the side of the data.
unfoldable pub by_side : {A : Type 0} → A → A → Side → A
by_side x y bid = x
by_side x y ask = y

unfoldable pub process :
    (T : TokenProgram) (budget slot : ℕ)
    → VaultAccounts
    → SwapInstructionData
    → Exec (World T) (Unit {0})
unfolding by_side buy_base sell_base
process T budget slot a d = do
  h ← gets λ w. w.book.header
  by_side (buy_base T budget slot h a d) (sell_base T budget slot h a d) d.side
