-- ===== src/Book/Take.antt =====
-- Matching: `take` walks the opposing levels in price order and each level's queue front to back.
pub mod Fill
use solana_orderbook.Base.{
  ℕ, ◌+◌, ◌/◌, ◌%◌, min, not, Option, none, some, ◌==◌, ltb, leb, ◌||◌, if◌then◌else◌, u32_mod,
  u64_max, add32, sub32, add64, sub64, mul64,
}
use solana_orderbook.Exec.{
  Result, ok, err, pure, fail, gets, modify, ◌>>=◌, ◌>>◌, Step, go_on, leave, loop,
}
use solana_orderbook.Exec.Errors.{
  clob, invalid_lots, invalid_state, tick_out_of_window, self_trade as self_trade_error,
}
use solana_orderbook.State.Constants.{window_mask, fee_denominator}
use solana_orderbook.State.{
  Side, bid, ask, opposite, SelfTradePolicy, cancel_resting, abort, TakeParams, TakeResult,
}
use solana_orderbook.State.Header.{base_atoms, add_fees_accrued}
use solana_orderbook.State.Nodes.{OrderNode, maker, is_expired, sub_lots}
use solana_orderbook.State.Seats.{Seat}
use solana_orderbook.Bitmap.{next_at_or_after, prev_at_or_before}
use solana_orderbook.Book.{
  Book, M, with_header, node_at, edit_node, settle_seat, level_at, edit_level, is_occupied, slot_of,
}
use solana_orderbook.Book.Fifo.{fifo_unlink}
use solana_orderbook.Book.Chain.{chain_unlink}
use solana_orderbook.Book.Orders.{kill_order, set_lots}

-- The variables of the walk.
pub record Walk : Type 0 where
  pub res : TakeResult
  pub remaining : ℕ
  pub last_level : Option ℕ

-- `Some(t) if t <= limit_tick`, and the mirror test.
unfoldable pub at_most : ℕ → Option ℕ → Option ℕ
at_most limit none = none
at_most limit (some t) = if leb t limit then some t else none

unfoldable pub no_less : ℕ → Option ℕ → Option ℕ
no_less limit none = none
no_less limit (some t) = if leb limit t then some t else none

-- Where the search for the next level starts; `none` leaves the walk.
unfoldable pub next_from : Side → ℕ → Option ℕ → Option ℕ
next_from bid anchor none = some anchor
next_from bid anchor (some t) = if ltb t (add32 anchor window_mask) then some (add32 t 1) else none
next_from ask anchor none = some (add32 anchor window_mask)
next_from ask anchor (some t) = if ltb anchor t then some (sub32 t 1) else none

unfoldable pub level_from : Side → ℕ → ℕ → Option ℕ → Book → Option ℕ
unfolding at_most no_less
level_from s limit anchor none b = none
level_from bid limit anchor (some from) b =
    at_most limit (next_at_or_after b.ask_bitmap anchor from)
level_from ask limit anchor (some from) b =
    no_less limit (prev_at_or_before b.bid_bitmap anchor from)

-- The lots that the rest of the quote budget pays for, fee included.
unfoldable pub affordable : ℕ → ℕ → ℕ → ℕ
affordable budget fee_bps price_per_lot =
    let capped = min budget (u64_max / (fee_denominator + fee_bps)) in
    mul64 capped fee_denominator / (fee_denominator + fee_bps) / price_per_lot

-- The size of the next fill; `none` leaves the walk.
unfoldable pub fill_size : ℕ → ℕ → ℕ → ℕ → Walk → Option ℕ
unfolding affordable
fill_size max_quote fee_bps price_per_lot node_lots w =
    let fill = min node_lots w.remaining in
    if max_quote == u64_max
    then some fill
    else let budget = sub64 (sub64 max_quote w.res.quote) w.res.fee in
      let can_buy = affordable budget fee_bps price_per_lot in
      let cut = min fill can_buy % u32_mod in
      if can_buy == 0 then none else (if cut == 0 then none else some cut)

-- The maker's side of a fill.
unfoldable pub settle_maker : Side → ℕ → ℕ → Seat → Result Seat
settle_maker ask base notional s =
    if ltb s.base_locked base
    then err (clob invalid_state)
    else ok (record s {
      base_locked = sub64 s.base_locked base;
      quote_free = add64 s.quote_free notional;
    })
settle_maker bid base notional s =
    if ltb s.quote_locked notional
    then err (clob invalid_state)
    else ok (record s {
      quote_locked = sub64 s.quote_locked notional;
      base_free = add64 s.base_free base;
    })

unfoldable pub fee_on : ℕ → ℕ → ℕ
fee_on fee_bps notional = mul64 notional fee_bps / fee_denominator

-- The walk after a fill.
unfoldable pub filled : ℕ → ℕ → ℕ → Walk → Walk
unfolding fee_on
filled fee_bps notional fill w = record w {
  res = record {
    lots = add32 w.res.lots fill;
    quote = add64 w.res.quote notional;
    fee = add64 w.res.fee (fee_on fee_bps notional);
  };
  remaining = sub32 w.remaining fill;
}

-- What becomes of the resting order: gone if it is filled, smaller if not.
unfoldable pub consume : Side → ℕ → ℕ → ℕ → ℕ → M (Unit {0})
consume book_side lvl head node_lots fill =
    if fill == node_lots
    then (do fifo_unlink book_side head; chain_unlink head)
    else (do edit_node head (set_lots (sub32 node_lots fill)); edit_level lvl (sub_lots fill))

-- One round of the inner loop ends with `go_on` for its `continue`, `leave (go_on w)` for
-- `continue 'levels` and `leave (leave w)` for `break 'levels`.
abbrev pub Inner : Type 0
Inner = Step Walk (Step Walk Walk)

module _ (p : TakeParams) (fee_bps : ℕ) where
  unfoldable pub fill_order : ℕ → ℕ → ℕ → OrderNode → Walk → Option ℕ → M Inner
  fill_order best price_per_lot head node w none = pure (leave (leave w))
  fill_order best price_per_lot head node w (some fill) = do
    h ← gets λ b. b.header
    let notional = mul64 price_per_lot fill
    let book_side = opposite p.side
    settle_seat (maker node) (settle_maker book_side (base_atoms h fill) notional)
    consume book_side (slot_of best) head node.lots fill
    let w' = filled fee_bps notional fill w
    if w'.remaining == 0 then pure (leave (leave w')) else pure (go_on w')

  unfoldable pub self_trade_with : SelfTradePolicy → ℕ → Walk → M Inner
  self_trade_with abort head w = fail self_trade_error
  self_trade_with cancel_resting head w = do kill_order head; pure (go_on w)

  unfoldable pub match_round : ℕ → ℕ → Walk → M Inner
  match_round best price_per_lot w = do
    occupied ← gets (is_occupied (opposite p.side) best)
    if not occupied then pure (leave (go_on w)) else do
      level ← level_at (slot_of best)
      node ← node_at level.head
      if is_expired node p.slot
          then (do kill_order level.head; pure (go_on w))
          else if maker node == p.seat
          then self_trade_with p.self_trade level.head w
          else fill_order best price_per_lot level.head node w
              (fill_size p.max_quote fee_bps price_per_lot node.lots w)

module _ (budget : ℕ) (p : TakeParams) (fee_bps anchor : ℕ) where
  unfoldable pub at_level : Walk → Option ℕ → M (Step Walk Walk)
  at_level w none = pure (leave w)
  at_level w (some best) = do
    h ← gets λ b. b.header
    let price_per_lot = mul64 best h.tick_size
    if price_per_lot == 0
        then fail tick_out_of_window
        else loop budget (match_round p fee_bps best price_per_lot)
            (record w { last_level = some best })

  unfoldable pub level_round : Walk → M (Step Walk Walk)
  level_round w = if w.remaining == 0 then pure (leave w) else do
    best ← gets (level_from p.side p.limit_tick anchor (next_from p.side anchor w.last_level))
    at_level w best

unfoldable pub start_walk : ℕ → Walk
start_walk max_lots = record {
  res = record { lots = 0; quote = 0; fee = 0 };
  remaining = max_lots;
  last_level = none;
}

unfoldable pub take : ℕ → TakeParams → M TakeResult
take budget p = do
  h ← gets λ b. b.header
  if (p.max_lots == 0) || ltb h.max_lots_per_order p.max_lots then fail invalid_lots else do
    w ← loop budget (level_round budget p h.fee_bps h.anchor_tick) (start_walk p.max_lots)
    modify (with_header (add_fees_accrued w.res.fee))
    pure w.res
