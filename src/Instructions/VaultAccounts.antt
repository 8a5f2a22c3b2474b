-- ===== src/Instructions/VaultAccounts.antt =====
-- The accounts of Withdraw and of Swap, in program/src/seat/withdraw.rs and program/src/taker/swap.rs,
-- and the transfers out of the vaults.
use solana_orderbook.Base.{ℕ, Bool, true, List, [], ◌∷◌, ◌==◌, ltb, if◌then◌else◌}
use solana_orderbook.Exec.{Exec, Result, ok, err, pure}
use solana_orderbook.Exec.Errors.{error, not_enough_account_keys, not_signer, invalid_token_address}
use solana_orderbook.State.Header.{Market}
use solana_orderbook.Runtime.{CheckedTransfer, TokenProgram, World, transfer}
use solana_orderbook.Runtime.Accounts.{AccountInfo, ProgramIds}
use solana_orderbook.Runtime.Checks.{◌then◌, require, writable_market, vault_checks, program_checks}

-- The addresses of the accounts; `owner` is Swap's `user`.
pub record VaultAccounts : Type 0 where
  pub owner : ℕ
  pub base_ata : ℕ
  pub quote_ata : ℕ
  pub base_vault : ℕ
  pub quote_vault : ℕ
  pub vault_authority : ℕ
  pub base_mint : ℕ
  pub quote_mint : ℕ
  pub base_token_program : ℕ
  pub quote_token_program : ℕ

-- `needs_signer` for Withdraw; Swap leaves the signature to the transfer.
unfoldable pub check_accounts :
    (Bool → Result (Unit {0})) → ProgramIds → Market → List AccountInfo → Result VaultAccounts
check_accounts signer ids h
      (owner
        ∷ (market
            ∷ (base_ata
                ∷ (quote_ata
                    ∷ (base_vault
                        ∷ (quote_vault
                            ∷ (vault_authority
                                ∷ (base_mint
                                    ∷ (quote_mint ∷ (base_program ∷ (quote_program ∷ []))))))))))) =
    signer owner.is_signer
    then writable_market ids h market
    then vault_checks ids h base_vault quote_vault
    then require (vault_authority.key == h.vault_authority) invalid_token_address
    then program_checks ids h base_program quote_program
    then ok (record {
      owner = owner.key;
      base_ata = base_ata.key;
      quote_ata = quote_ata.key;
      base_vault = base_vault.key;
      quote_vault = quote_vault.key;
      vault_authority = vault_authority.key;
      base_mint = base_mint.key;
      quote_mint = quote_mint.key;
      base_token_program = base_program.key;
      quote_token_program = quote_program.key;
    })
check_accounts signer ids h accounts = err (error not_enough_account_keys)

-- Withdraw's first check.
unfoldable pub needs_signer : Bool → Result (Unit {0})
needs_signer is_signer = require is_signer not_signer

-- The transfers from the vaults to the owner, signed by the vault authority.
unfoldable pub base_out : Market → VaultAccounts → ℕ → CheckedTransfer
base_out h a amount = record {
  token_program = a.base_token_program;
  from = a.base_vault;
  mint = a.base_mint;
  to = a.base_ata;
  authority = a.vault_authority;
  amount = amount;
  decimals = h.base_decimals;
  signed = true;
}

unfoldable pub quote_out : Market → VaultAccounts → ℕ → CheckedTransfer
quote_out h a amount = record {
  token_program = a.quote_token_program;
  from = a.quote_vault;
  mint = a.quote_mint;
  to = a.quote_ata;
  authority = a.vault_authority;
  amount = amount;
  decimals = h.quote_decimals;
  signed = true;
}

-- A transfer that is skipped for nothing.
unfoldable pub push : (T : TokenProgram) → CheckedTransfer → Exec (World T) (Unit {0})
push T t = if ltb 0 t.amount then transfer T t else pure tt
