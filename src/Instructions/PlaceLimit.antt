-- ===== src/Instructions/PlaceLimit.antt =====
-- program/src/maker/place_limit.rs.
use solana_orderbook.Base.{
  ℕ, ◌-◌, ◌/◌, ◌%◌, Bool, false, List, not, ◌==◌, ltb, if◌then◌else◌, u64_max, add64, sub64, sub32,
}
use solana_orderbook.Base.Bytes.{u8_at, u16_at, u32_at}
use solana_orderbook.Exec.{Result, ok, err, pure, gets, ◌>>=◌, ◌>>◌, continue_with}
use solana_orderbook.Exec.Errors.{clob, insufficient_balance}
use solana_orderbook.State.{Side, bid, ask, try_from_u8, from_flags, TakeResult}
use solana_orderbook.State.Header.{base_atoms}
use solana_orderbook.State.Seats.{Seat}
use solana_orderbook.Book.{M, settle_seat}
use solana_orderbook.Book.Orders.{upsert_order}
use solana_orderbook.Book.Take.{take}
use solana_orderbook.Book.SeatTable.{check_seat}
use solana_orderbook.Runtime.Accounts.{AccountInfo, ProgramIds}
use solana_orderbook.Instructions.{exactly, bump, by_owner}

pub record PlaceLimitInstructionData : Type 0 where
  pub seat_index : ℕ
  pub side : Side
  pub tick : ℕ
  pub lots : ℕ
  pub expiry_slot : ℕ
  pub flags : ℕ

unfoldable pub post_only : PlaceLimitInstructionData → Bool
post_only d = not ((d.flags % 2) == 0)

unfoldable pub reject_on_cross : PlaceLimitInstructionData → Bool
reject_on_cross d = not ((d.flags / 2 % 2) == 0)

unfoldable pub try_from : List ℕ → Result PlaceLimitInstructionData
try_from bytes = exactly 16 bytes (
    continue_with (try_from_u8 (u8_at 2 bytes)) λ side. ok (record {
      seat_index = u16_at 0 bytes;
      side = side;
      tick = u32_at 3 bytes;
      lots = u32_at 7 bytes;
      expiry_slot = u32_at 11 bytes;
      flags = u8_at 15 bytes;
    }))

-- The taker's side of the trade.
unfoldable pub settle_taker : Side → ℕ → TakeResult → Seat → Result Seat
settle_taker bid base res s =
    let cost = add64 res.quote res.fee in
    if ltb s.quote_free cost
    then err (clob insufficient_balance)
    else ok (record s { quote_free = s.quote_free - cost; base_free = add64 s.base_free base })
settle_taker ask base res s =
    if ltb s.base_free base
    then err (clob insufficient_balance)
    else ok (record s {
      base_free = s.base_free - base;
      quote_free = add64 s.quote_free (sub64 res.quote res.fee);
    })

module _ (budget : ℕ) where
  -- Match first, then rest the remainder.
  unfoldable pub cross : ℕ → PlaceLimitInstructionData → M (Unit {0})
  cross slot d = do
    res ← take budget (record {
      side = d.side;
      limit_tick = d.tick;
      max_lots = d.lots;
      max_quote = u64_max;
      seat = d.seat_index;
      slot = slot;
      self_trade = from_flags d.flags;
    })
    h ← gets λ b. b.header
    if ltb 0 res.lots
        then settle_seat d.seat_index (settle_taker d.side (base_atoms h res.lots) res)
        else pure tt
    if ltb 0 (sub32 d.lots res.lots)
        then (do
          upsert_order budget d.side d.tick (sub32 d.lots res.lots) d.seat_index d.expiry_slot false
          pure tt)
        else pure tt
    bump

  unfoldable pub process : ℕ → ℕ → PlaceLimitInstructionData → M (Unit {0})
  unfolding cross
  process slot owner d = do
    check_seat d.seat_index owner
    if d.lots == 0
        then (do upsert_order budget d.side d.tick 0 d.seat_index d.expiry_slot false; bump)
        else (if post_only d
            then (do
              upsert_order budget d.side d.tick d.lots d.seat_index d.expiry_slot
                  (not (reject_on_cross d))
              bump)
            else cross slot d)

-- The accounts and the data are read, and the instruction processed.
abbrev pub run : (budget slot : ℕ) → ProgramIds → List AccountInfo → List ℕ → M (Unit {0})
run budget slot = by_owner try_from (process budget slot)
