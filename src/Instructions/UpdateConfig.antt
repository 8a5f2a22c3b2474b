-- ===== src/Instructions/UpdateConfig.antt =====
-- program/src/admin/update_config.rs.
use solana_orderbook.Base.{ℕ, List, [], ◌∷◌, ◌==◌, ◌||◌, if◌then◌else◌, update}
use solana_orderbook.Base.Bytes.{drop, from_le}
use solana_orderbook.Exec.{Exec, Result, ok, err, fail, modify}
use solana_orderbook.Exec.Errors.{
  error, not_enough_account_keys, not_signer, not_mutable, invalid_program_authority,
  zero_authority,
}
use solana_orderbook.State.Header.{Config}
use solana_orderbook.Runtime.{TokenProgram, World}
use solana_orderbook.Runtime.Accounts.{AccountInfo, ProgramIds, check_config}
use solana_orderbook.Runtime.Checks.{◌then◌, require}
use solana_orderbook.Instructions.{exactly}

pub record UpdateConfigInstructionData : Type 0 where
  pub seat_authority : ℕ
  pub market_authority : ℕ

-- Two addresses of 32 bytes.
unfoldable pub try_from : List ℕ → Result UpdateConfigInstructionData
try_from bytes =
    exactly 64 bytes (
      ok
        record { seat_authority = from_le 32 bytes; market_authority = from_le 32 (drop 32 bytes) })

-- The address of the config.
unfoldable pub check_accounts : ProgramIds → (ℕ → Config) → List AccountInfo → Result ℕ
check_accounts ids configs (authority ∷ (config ∷ [])) =
    require authority.is_signer not_signer
    then require config.is_writable not_mutable
    then check_config ids (configs config.key) config
    then require ((configs config.key).authority == authority.key) invalid_program_authority
    then ok config.key
check_accounts ids configs accounts = err (error not_enough_account_keys)

unfoldable pub delegate : UpdateConfigInstructionData → Config → Config
delegate d c = record c { seat_authority = d.seat_authority; market_authority = d.market_authority }

unfoldable pub process :
    (T : TokenProgram) → ℕ → UpdateConfigInstructionData → Exec (World T) (Unit {0})
process T config d =
    if (d.seat_authority == 0) || (d.market_authority == 0)
    then fail zero_authority
    else modify λ w. record w { configs = update w.configs config (delegate d (w.configs config)) }
