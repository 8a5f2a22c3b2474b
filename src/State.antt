-- ===== src/State.antt =====
-- program/src/state.rs and constants.rs: the records of the market account. A field of little-endian
-- bytes is the number that its accessor decodes; a pubkey is the number that its 32 bytes spell.
pub mod Constants
pub mod Seats
pub mod Nodes
pub mod Header
pub mod Bounds
pub mod Locks
use solana_orderbook.Base.{ℕ, ◌≡◌, Bool, true, false, if◌then◌else◌, ◌==◌, ◌/◌, ◌%◌}
use solana_orderbook.Exec.{Result, ok, err}
use solana_orderbook.Exec.Errors.{error, invalid_instruction_data}

pub data Side : Type 0 where
  bid ask : Side

unfoldable pub try_from_u8 : ℕ → Result Side
try_from_u8 v =
    if v == 0 then ok bid else if v == 1 then ok ask else err (error invalid_instruction_data)

unfoldable pub opposite : Side → Side
opposite bid = ask
opposite ask = bid

-- `side as u64`.
unfoldable pub side_index : Side → ℕ
side_index bid = 0
side_index ask = 1

-- `flags & 0b10 != 0`.
pub data SelfTradePolicy : Type 0 where
  cancel_resting abort : SelfTradePolicy

unfoldable pub from_flags : ℕ → SelfTradePolicy
from_flags flags = if (flags / 2 % 2) == 0 then cancel_resting else abort

pub record TakeResult : Type 0 where
  pub lots : ℕ
  pub quote : ℕ
  pub fee : ℕ

-- `TakeResult::default()`.
abbrev pub no_lots : TakeResult
no_lots = record { lots = 0; quote = 0; fee = 0 }

pub record TakeParams : Type 0 where
  pub side : Side
  pub limit_tick : ℕ
  pub max_lots : ℕ
  pub max_quote : ℕ
  pub seat : ℕ
  pub slot : ℕ
  pub self_trade : SelfTradePolicy
