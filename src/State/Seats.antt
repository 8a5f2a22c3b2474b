-- ===== src/State/Seats.antt =====
-- `Seat`: internal balances, and the head of the seat's order chain.
use solana_orderbook.Base.{ℕ, ◌-◌, Bool, true, false, ◌==◌, ltb, if◌then◌else◌, add16, sub16, add64}
use solana_orderbook.Exec.{Result, ok, err}
use solana_orderbook.Exec.Errors.{clob, insufficient_balance, invalid_state}

pub record Seat : Type 0 where
  pub owner : ℕ
  pub base_free : ℕ
  pub quote_free : ℕ
  pub base_locked : ℕ
  pub quote_locked : ℕ
  pub orders_head : ℕ
  pub order_count : ℕ

unfoldable pub is_free : Seat → Bool
is_free s = s.owner == 0

unfoldable pub inc_order_count : Seat → Seat
inc_order_count s = record s { order_count = add16 s.order_count 1 }

unfoldable pub dec_order_count : Seat → Seat
dec_order_count s = record s { order_count = sub16 s.order_count 1 }

-- `Seat::lock(base, atoms)`.
unfoldable pub lock : Bool → ℕ → Seat → Result Seat
lock true atoms s =
    if ltb s.base_free atoms
    then err (clob insufficient_balance)
    else ok (record s { base_free = s.base_free - atoms; base_locked = add64 s.base_locked atoms })
lock false atoms s =
    if ltb s.quote_free atoms
    then err (clob insufficient_balance)
    else ok
        (record s { quote_free = s.quote_free - atoms; quote_locked = add64 s.quote_locked atoms })

-- `Seat::unlock(base, atoms)`.
unfoldable pub unlock : Bool → ℕ → Seat → Result Seat
unlock true atoms s =
    if ltb s.base_locked atoms
    then err (clob invalid_state)
    else ok (record s { base_locked = s.base_locked - atoms; base_free = add64 s.base_free atoms })
unlock false atoms s =
    if ltb s.quote_locked atoms
    then err (clob invalid_state)
    else ok
        (record s { quote_locked = s.quote_locked - atoms; quote_free = add64 s.quote_free atoms })
