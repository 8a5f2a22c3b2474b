-- ===== src/Instructions/UpdateFee.antt =====
-- program/src/admin/update_fee.rs, without its event log.
use solana_orderbook.Base.{ℕ, List, [], ◌∷◌, ◌==◌}
use solana_orderbook.Base.Bytes.{u16_at}
use solana_orderbook.Exec.{Result, ok, err, lift, gets, modify, ◌>>=◌}
use solana_orderbook.Exec.Errors.{
  error, not_enough_account_keys, not_signer, invalid_program_authority,
}
use solana_orderbook.State.Header.{Market}
use solana_orderbook.Book.{M, with_header}
use solana_orderbook.Admin.{update_fee}
use solana_orderbook.Runtime.Accounts.{AccountInfo, ProgramIds}
use solana_orderbook.Runtime.Checks.{◌then◌, require, writable_market}
use solana_orderbook.Instructions.{exactly}

unfoldable pub try_from : List ℕ → Result ℕ
try_from bytes = exactly 2 bytes (ok (u16_at 0 bytes))

unfoldable pub check_accounts : ProgramIds → Market → List AccountInfo → Result (Unit {0})
check_accounts ids h (authority ∷ (market ∷ [])) =
    require authority.is_signer not_signer
    then writable_market ids h market
    then require (h.authority == authority.key) invalid_program_authority
check_accounts ids h accounts = err (error not_enough_account_keys)

unfoldable pub process : ℕ → M (Unit {0})
process fee_bps = do
  h ← gets λ b. b.header
  h' ← lift (update_fee fee_bps h)
  modify (with_header λ _. h')
