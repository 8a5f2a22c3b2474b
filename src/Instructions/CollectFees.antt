-- ===== src/Instructions/CollectFees.antt =====
-- program/src/admin/collect_fees.rs, without its event log.
use solana_orderbook.Base.{ℕ, true, List, [], ◌∷◌, ◌==◌, ltb, if◌then◌else◌}
use solana_orderbook.Exec.{Exec, Result, ok, err, pure, gets, modify, ◌>>=◌, ◌>>◌}
use solana_orderbook.Exec.Errors.{
  error, not_enough_account_keys, not_signer, invalid_program_authority, invalid_token_address,
  unsupported_token_program,
}
use solana_orderbook.State.Header.{Market, clear_fees_accrued}
use solana_orderbook.Book.{with_header}
use solana_orderbook.Runtime.{CheckedTransfer, TokenProgram, World, on_book, transfer}
use solana_orderbook.Runtime.Accounts.{AccountInfo, ProgramIds}
use solana_orderbook.Runtime.Checks.{◌then◌, require, token_program_id, writable_market}
use solana_orderbook.Instructions.{bump}

-- The addresses of the accounts.
pub record CollectFeesAccounts : Type 0 where
  pub quote_vault : ℕ
  pub authority_quote_ata : ℕ
  pub vault_authority : ℕ
  pub quote_mint : ℕ
  pub quote_token_program : ℕ

unfoldable pub check_accounts : ProgramIds → Market → List AccountInfo → Result CollectFeesAccounts
check_accounts ids h
      (authority
        ∷ (market
            ∷ (quote_vault
                ∷ (quote_ata ∷ (vault_authority ∷ (quote_mint ∷ (quote_program ∷ []))))))) =
    require authority.is_signer not_signer
    then writable_market ids h market
    then require (h.authority == authority.key) invalid_program_authority
    then require (quote_vault.key == h.quote_vault) invalid_token_address
    then require (vault_authority.key == h.vault_authority) invalid_token_address
    then require (quote_program.key == token_program_id ids h.quote_token_program)
        unsupported_token_program
    then ok (record {
      quote_vault = quote_vault.key;
      authority_quote_ata = quote_ata.key;
      vault_authority = vault_authority.key;
      quote_mint = quote_mint.key;
      quote_token_program = quote_program.key;
    })
check_accounts ids h accounts = err (error not_enough_account_keys)

unfoldable pub fee_transfer : Market → CollectFeesAccounts → ℕ → CheckedTransfer
fee_transfer h a amount = record {
  token_program = a.quote_token_program;
  from = a.quote_vault;
  mint = a.quote_mint;
  to = a.authority_quote_ata;
  authority = a.vault_authority;
  amount = amount;
  decimals = h.quote_decimals;
  signed = true;
}

unfoldable pub process : (T : TokenProgram) → CollectFeesAccounts → Exec (World T) (Unit {0})
process T a = do
  h ← gets λ w. w.book.header
  on_book T (modify (with_header clear_fees_accrued))
  on_book T bump
  if ltb 0 h.fees_accrued_quote then transfer T (fee_transfer h a h.fees_accrued_quote) else pure tt
