-- ===== src/Instructions/ReapExpired.antt =====
-- program/src/hygiene/reap_expired.rs.
use solana_orderbook.Base.{ℕ, List, [], ◌∷◌}
use solana_orderbook.Base.Bytes.{u8_at, u32_at}
use solana_orderbook.Exec.{Result, ok, err, ◌>>◌, continue_with}
use solana_orderbook.Exec.Errors.{error, not_enough_account_keys}
use solana_orderbook.State.{Side, try_from_u8}
use solana_orderbook.State.Header.{Market}
use solana_orderbook.Book.{M}
use solana_orderbook.Book.Hygiene.{reap_expired}
use solana_orderbook.Runtime.Accounts.{AccountInfo, ProgramIds}
use solana_orderbook.Runtime.Checks.{writable_market}
use solana_orderbook.Instructions.{exactly, bump}

pub record ReapExpiredInstructionData : Type 0 where
  pub side : Side
  pub start_tick : ℕ
  pub max_count : ℕ

unfoldable pub try_from : List ℕ → Result ReapExpiredInstructionData
try_from bytes = exactly 9 bytes (
    continue_with (try_from_u8 (u8_at 0 bytes))
      λ side. ok (record { side = side; start_tick = u32_at 1 bytes; max_count = u32_at 5 bytes }))

unfoldable pub check_accounts : ProgramIds → Market → List AccountInfo → Result (Unit {0})
check_accounts ids h (market ∷ []) = writable_market ids h market
check_accounts ids h accounts = err (error not_enough_account_keys)

unfoldable pub process : ℕ → ℕ → ReapExpiredInstructionData → M (Unit {0})
process budget slot d = do reap_expired budget d.side d.start_tick d.max_count slot; bump
