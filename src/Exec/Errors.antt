-- ===== src/Exec/Errors.antt =====
-- errors.rs, and how an instruction can end without success.
use solana_orderbook.Base.{ℕ}

pub data ClobError : Type 0 where
  not_mutable not_signer invalid_account_owner invalid_account_length invalid_version : ClobError
  invalid_seat_index invalid_seat_owner seat_table_full seat_not_empty : ClobError
  tick_out_of_window invalid_lots pool_full order_not_found would_cross : ClobError
  payload_not_sorted too_many_orders slippage_exceeded self_trade invalid_fee : ClobError
  invalid_market_params insufficient_balance invalid_token_address : ClobError
  invalid_program_authority invalid_state zero_authority : ClobError
  unsupported_token_program permanent_delegate_not_allowed : ClobError

-- `e as u32`.
pub code : ClobError → ℕ
code not_mutable = 0
code not_signer = 1
code invalid_account_owner = 2
code invalid_account_length = 3
code invalid_version = 4
code invalid_seat_index = 5
code invalid_seat_owner = 6
code seat_table_full = 7
code seat_not_empty = 8
code tick_out_of_window = 9
code invalid_lots = 10
code pool_full = 11
code order_not_found = 12
code would_cross = 13
code payload_not_sorted = 14
code too_many_orders = 15
code slippage_exceeded = 16
code self_trade = 17
code invalid_fee = 18
code invalid_market_params = 19
code insufficient_balance = 20
code invalid_token_address = 21
code invalid_program_authority = 22
code invalid_state = 23
code zero_authority = 24
code unsupported_token_program = 25
code permanent_delegate_not_allowed = 26

-- The variants of pinocchio's `ProgramError` that the program constructs.
pub data ProgramError : Type 0 where
  custom : ℕ → ProgramError
  invalid_instruction_data not_enough_account_keys arithmetic_overflow : ProgramError

-- A handler ends with an error of its own, by a panic (an index out of range), or because the
-- compute budget is spent.
pub data Abort : Type 0 where
  error : ProgramError → Abort
  panicked out_of_compute : Abort

-- `From<ClobError> for ProgramError`.
unfoldable pub clob : ClobError → Abort
unfolding code
clob e = error (custom (code e))
