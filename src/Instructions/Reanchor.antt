-- ===== src/Instructions/Reanchor.antt =====
-- program/src/hygiene/reanchor.rs, without its event log.
use solana_orderbook.Base.{ℕ, List, [], ◌∷◌, ◌==◌}
use solana_orderbook.Base.Bytes.{u32_at}
use solana_orderbook.Exec.{Result, ok, err, ◌>>◌}
use solana_orderbook.Exec.Errors.{
  error, not_enough_account_keys, not_signer, invalid_program_authority,
}
use solana_orderbook.State.Header.{Market, Config}
use solana_orderbook.Book.{M}
use solana_orderbook.Book.Hygiene.{reanchor_step}
use solana_orderbook.Runtime.Accounts.{AccountInfo, ProgramIds}
use solana_orderbook.Runtime.Checks.{◌then◌, require, writable_market, config_checks}
use solana_orderbook.Instructions.{exactly, bump}

pub record ReanchorInstructionData : Type 0 where
  pub target_anchor : ℕ
  pub max_levels : ℕ

unfoldable pub try_from : List ℕ → Result ReanchorInstructionData
try_from bytes =
    exactly 8 bytes (ok record { target_anchor = u32_at 0 bytes; max_levels = u32_at 4 bytes })

unfoldable pub check_accounts :
    ProgramIds → Market → (ℕ → Config) → List AccountInfo → Result (Unit {0})
check_accounts ids h configs (market_authority ∷ (config ∷ (market ∷ []))) =
    require market_authority.is_signer not_signer
    then writable_market ids h market
    then config_checks ids h (configs config.key) config
    then require ((configs config.key).market_authority == market_authority.key)
        invalid_program_authority
check_accounts ids h configs accounts = err (error not_enough_account_keys)

unfoldable pub process : ℕ → ReanchorInstructionData → M (Unit {0})
process budget d = do reanchor_step budget d.target_anchor d.max_levels; bump
