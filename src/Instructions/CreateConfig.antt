-- ===== src/Instructions/CreateConfig.antt =====
-- program/src/admin/create_config.rs.
use solana_orderbook.Base.{ℕ, List, [], ◌∷◌, ◌==◌, ◌||◌, ◌&&◌, not, if◌then◌else◌, update}
use solana_orderbook.Exec.{Exec, Result, ok, err, pure, fail, lift, modify, ◌>>◌}
use solana_orderbook.Exec.Errors.{
  error, not_enough_account_keys, not_signer, not_mutable, zero_authority, invalid_account_owner,
}
use solana_orderbook.State.Constants.{config_len, config_version}
use solana_orderbook.Runtime.{TokenProgram, World}
use solana_orderbook.Runtime.Accounts.{AccountInfo}
use solana_orderbook.Runtime.Programs.{Runtime, config_seed}
use solana_orderbook.Runtime.Checks.{◌then◌, require}
use solana_orderbook.Instructions.UpdateConfig.{UpdateConfigInstructionData}

-- The addresses of the accounts.
pub record CreateConfigAccounts : Type 0 where
  pub payer : ℕ
  pub config : ℕ
  pub authority : ℕ

unfoldable pub check_accounts : List AccountInfo → Result CreateConfigAccounts
check_accounts (payer ∷ (config ∷ (authority ∷ (system_program ∷ [])))) =
    require (payer.is_signer && authority.is_signer) not_signer
    then require config.is_writable not_mutable
    then ok (record { payer = payer.key; config = config.key; authority = authority.key })
check_accounts accounts = err (error not_enough_account_keys)

module _ (T : TokenProgram) (r : Runtime) where
  -- The data are those of UpdateConfig.
  unfoldable pub process :
      CreateConfigAccounts → UpdateConfigInstructionData → Exec (World T) (Unit {0})
  process a d = do
    if (d.seat_authority == 0) || (d.market_authority == 0) then fail zero_authority else pure tt
    let (expected, bump) =
        r.find_program_address (config_seed ∷ (a.authority ∷ [])) r.ids.program_id
    if not (a.config == expected) then fail invalid_account_owner else pure tt
    lift (r.create_account a.payer a.config config_len)
    modify λ w. record w {
      configs = update w.configs a.config (record {
        version = config_version;
        bump = bump;
        authority = a.authority;
        seat_authority = d.seat_authority;
        market_authority = d.market_authority;
      });
    }
