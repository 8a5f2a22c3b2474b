-- ===== src/Solvency/Guards.antt =====
-- What the account checks of program/src say of the vaults.
use solana_orderbook.Base.{ℕ, ◌≡◌, Bool, List, [], ◌∷◌, arith}
use solana_orderbook.Exec.{Result, ok}
use solana_orderbook.State.Header.{Market, Config}
use solana_orderbook.Runtime.Accounts.{AccountInfo, ProgramIds}
use solana_orderbook.Runtime.Checks.{vault_checks, then-first, then-last, required}
use solana_orderbook.Instructions.Deposit
use solana_orderbook.Instructions.CollectFees
use solana_orderbook.Instructions.CreateMarket
use solana_orderbook.Instructions.VaultAccounts

vaults :
    (ids : ProgramIds) (h : Market) (base_vault quote_vault : AccountInfo)
    → vault_checks ids h base_vault quote_vault ≡ ok tt
    → (base_vault.key ≡ h.base_vault) × (quote_vault.key ≡ h.quote_vault)
unfolding vault_checks
vaults ids h base_vault quote_vault e =
    (required _ _ _ (then-first _ _ _ e), required _ _ _ (then-last _ _ _ e))

-- The vaults that a handler works with are those of the market.
abbrev pub At : Market → ℕ → ℕ → Type 0
At h base_vault quote_vault = (base_vault ≡ h.base_vault) × (quote_vault ≡ h.quote_vault)

pub deposit-At :
    (ids : ProgramIds) (h : Market) (accounts : List AccountInfo) (a : Deposit.DepositAccounts)
    → Deposit.check_accounts ids h accounts ≡ ok a
    → At h a.base_vault a.quote_vault
unfolding Deposit.check_accounts
deposit-At ids h
      (owner
        ∷ (market
            ∷ (base_ata
                ∷ (quote_ata
                    ∷ (base_vault
                        ∷ (quote_vault
                            ∷ (base_mint
                                ∷ (quote_mint ∷ (base_program ∷ (quote_program ∷ []))))))))))
      a e =
    let (p, q) =
      vaults ids h base_vault quote_vault
        (then-last _ _ _ (then-first _ _ _ (then-first _ _ _ e))) in
    let last : ok _ ≡ ok a = then-last _ _ _ e in (ground (arith, p, last), ground (arith, q, last))
deposit-At ids h accounts a e = ground arith

pub vaults-At :
    (signer : Bool → Result (Unit {0})) (ids : ProgramIds) (h : Market)
    (accounts : List AccountInfo) (a : VaultAccounts.VaultAccounts)
    → VaultAccounts.check_accounts signer ids h accounts ≡ ok a
    → At h a.base_vault a.quote_vault
unfolding VaultAccounts.check_accounts
vaults-At signer ids h
      (owner
        ∷ (market
            ∷ (base_ata
                ∷ (quote_ata
                    ∷ (base_vault
                        ∷ (quote_vault
                            ∷ (vault_authority
                                ∷ (base_mint
                                    ∷ (quote_mint ∷ (base_program ∷ (quote_program ∷ [])))))))))))
      a e =
    let (p, q) =
      vaults ids h base_vault quote_vault
        (then-last _ _ _ (then-first _ _ _ (then-first _ _ _ (then-first _ _ _ e)))) in
    let last : ok _ ≡ ok a = then-last _ _ _ e in (ground (arith, p, last), ground (arith, q, last))
vaults-At signer ids h accounts a e = ground arith

pub collect_fees-At :
    (ids : ProgramIds) (h : Market) (accounts : List AccountInfo)
    (a : CollectFees.CollectFeesAccounts)
    → CollectFees.check_accounts ids h accounts ≡ ok a
    → a.quote_vault ≡ h.quote_vault
unfolding CollectFees.check_accounts
collect_fees-At ids h
      (authority
        ∷ (market
            ∷ (quote_vault
                ∷ (quote_ata ∷ (vault_authority ∷ (quote_mint ∷ (quote_program ∷ [])))))))
      a e =
    let q : quote_vault.key ≡ h.quote_vault =
      required _ _ _ (then-last _ _ _ (then-first _ _ _ (then-first _ _ _ (then-first _ _ _ e)))) in
    let last : ok _ ≡ ok a = then-last _ _ _ e in ground (arith, q, last)
collect_fees-At ids h accounts a e = ground arith

-- A market that has been listed is not listed again.
pub create_market-version :
    (ids : ProgramIds) (h : Market) (configs : ℕ → Config) (accounts : List AccountInfo)
    (a : CreateMarket.CreateMarketAccounts)
    → CreateMarket.check_accounts ids h configs accounts ≡ ok a
    → h.version ≡ 0
unfolding CreateMarket.check_accounts
create_market-version ids h configs
      (market
        ∷ (base_mint ∷ (quote_mint ∷ (base_vault ∷ (quote_vault ∷ (authority ∷ (config ∷ [])))))))
      a e =
    required _ _ _ (then-last _ _ _ (then-first _ _ _ (then-first _ _ _ e)))
create_market-version ids h configs accounts a e = ground arith
