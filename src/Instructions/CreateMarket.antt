-- ===== src/Instructions/CreateMarket.antt =====
-- program/src/admin/create_market.rs, without its event log.
use solana_orderbook.Base.{
  ℕ, ◌/◌, ◌%◌, Bool, Option, none, some, List, [], ◌∷◌, ◌==◌, ◌||◌, ◌&&◌, not, ltb, if◌then◌else◌,
  u32_mod, sub64,
}
use solana_orderbook.Base.Bytes.{u16_at, u32_at, u64_at}
use solana_orderbook.Exec.{Exec, Result, ok, err, pure, gets, lift, modify, ◌>>=◌, ◌>>◌}
use solana_orderbook.Exec.Errors.{
  clob, error, out_of_compute, not_enough_account_keys, not_signer, not_mutable,
  invalid_account_owner, invalid_account_length, invalid_state, invalid_token_address,
  permanent_delegate_not_allowed,
}
use solana_orderbook.State.Constants.{
  nil, pool_offset, node_len, min_market_len, max_pool_capacity, market_version, token_program_2022,
}
use solana_orderbook.State.Header.{Market, Config}
use solana_orderbook.Book.{M, with_header}
use solana_orderbook.Book.Pool.{thread_free_list}
use solana_orderbook.Admin.{CreateMarketInstructionData, check_params, write_params}
use solana_orderbook.Admin.Mints.{
  mint_token_program_flag, mint_decimals, has_permanent_delegate_bytes,
}
use solana_orderbook.Runtime.{TokenProgram, World, on_book}
use solana_orderbook.Runtime.Accounts.{AccountInfo, ProgramIds, check_config}
use solana_orderbook.Runtime.Programs.{Runtime, vault_seed}
use solana_orderbook.Runtime.Checks.{◌then◌, require, token_program_id}
use solana_orderbook.Instructions.{exactly, bump}

pub record CreateMarketAccounts : Type 0 where
  pub market : AccountInfo
  pub base_mint : AccountInfo
  pub quote_mint : AccountInfo
  pub base_vault : ℕ
  pub quote_vault : ℕ
  pub authority : ℕ
  pub config : ℕ

-- The length of the region of the pool, in bytes; a `usize` wraps.
unfoldable pub pool_len : ℕ → ℕ
pool_len data_len = sub64 data_len pool_offset

unfoldable pub capacity_of : ℕ → ℕ
unfolding pool_len
capacity_of data_len = pool_len data_len / node_len % u32_mod

unfoldable pub is_bad_length : ℕ → Bool
unfolding pool_len capacity_of
is_bad_length data_len =
    ltb data_len min_market_len
    || (not ((pool_len data_len % node_len) == 0) || ltb max_pool_capacity (capacity_of data_len))

unfoldable pub check_accounts :
    ProgramIds → Market → (ℕ → Config) → List AccountInfo → Result CreateMarketAccounts
check_accounts ids h configs
      (market
        ∷ (base_mint ∷ (quote_mint ∷ (base_vault ∷ (quote_vault ∷ (authority ∷ (config ∷ []))))))) =
    require market.is_writable not_mutable
    then require market.is_signer not_signer
    then require (market.owner == ids.program_id) invalid_account_owner
    then require (not (is_bad_length market.data_len)) invalid_account_length
    then require (h.version == 0) invalid_state
    then check_config ids (configs config.key) config
    then ok (record {
      market = market;
      base_mint = base_mint;
      quote_mint = quote_mint;
      base_vault = base_vault.key;
      quote_vault = quote_vault.key;
      authority = authority.key;
      config = config.key;
    })
check_accounts ids h configs accounts = err (error not_enough_account_keys)

unfoldable pub try_from : List ℕ → Result CreateMarketInstructionData
try_from bytes = exactly 26 bytes (
    ok record {
      tick_size = u64_at 0 bytes;
      base_lot_size = u64_at 8 bytes;
      anchor_tick = u32_at 16 bytes;
      fee_bps = u16_at 20 bytes;
      max_lots_per_order = u32_at 22 bytes;
    })

-- What the guards have read of the two mints.
pub record Mints : Type 0 where
  pub base_flag : ℕ
  pub quote_flag : ℕ
  pub base_decimals : ℕ
  pub quote_decimals : ℕ

unfoldable pub allowed : ℕ → Option Bool → Result (Unit {0})
allowed flag none = err out_of_compute
allowed flag (some found) =
    if (flag == token_program_2022) && found
    then err (clob permanent_delegate_not_allowed)
    else ok tt

-- `[vault_authority, token_program, mint]`.
unfoldable pub check_vault : Runtime → ℕ → ℕ → ℕ → ℕ → Result (Unit {0})
check_vault r vault_authority flag mint vault =
    require
      (vault
        == (r.find_program_address (vault_authority ∷ (token_program_id r.ids flag ∷ (mint ∷ [])))
            r.associated_token_id).0)
      invalid_token_address

-- The header, once every guard has passed; `h` has the parameters.
unfoldable pub list_market : Runtime → CreateMarketAccounts → Mints → Market → Market
list_market r a m h =
    let (vault_authority, bump) =
      r.find_program_address (vault_seed ∷ (a.market.key ∷ [])) r.ids.program_id in
    record h {
      version = market_version;
      bump = bump;
      base_mint = a.base_mint.key;
      quote_mint = a.quote_mint.key;
      base_vault = a.base_vault;
      quote_vault = a.quote_vault;
      vault_authority = vault_authority;
      authority = a.authority;
      config = a.config;
      order_pool_capacity = capacity_of a.market.data_len;
      base_token_program = m.base_flag;
      quote_token_program = m.quote_flag;
      base_decimals = m.base_decimals;
      quote_decimals = m.quote_decimals;
      free_head = nil;
    }

-- The writes of the book.
unfoldable pub write_market :
    Runtime → CreateMarketAccounts → CreateMarketInstructionData → Mints → ℕ → M (Unit {0})
write_market r a d m tick_limit = do
  h ← gets λ b. b.header
  h' ← lift (write_params d h (ok tick_limit))
  modify (with_header λ _. list_market r a m h')
  thread_free_list 1 (capacity_of a.market.data_len)
  bump

module _ (T : TokenProgram) (r : Runtime) where
  -- The guards on the mints and on the vaults.
  unfoldable pub check_mints : CreateMarketAccounts → Exec (World T) Mints
  unfolding check_vault
  check_mints a = do
    base_flag ← lift (mint_token_program_flag r.ids a.base_mint)
    quote_flag ← lift (mint_token_program_flag r.ids a.quote_mint)
    base ← gets λ w. T.data_of a.base_mint.key w.tokens
    quote ← gets λ w. T.data_of a.quote_mint.key w.tokens
    base_decimals ← lift (mint_decimals base_flag base)
    quote_decimals ← lift (mint_decimals quote_flag quote)
    lift (allowed base_flag (has_permanent_delegate_bytes r.budget base))
    lift (allowed quote_flag (has_permanent_delegate_bytes r.budget quote))
    let (vault_authority, bump) =
        r.find_program_address (vault_seed ∷ (a.market.key ∷ [])) r.ids.program_id
    lift (check_vault r vault_authority base_flag a.base_mint.key a.base_vault)
    lift (check_vault r vault_authority quote_flag a.quote_mint.key a.quote_vault)
    pure (record {
      base_flag = base_flag;
      quote_flag = quote_flag;
      base_decimals = base_decimals;
      quote_decimals = quote_decimals;
    })

  unfoldable pub process :
      CreateMarketAccounts → CreateMarketInstructionData → Exec (World T) (Unit {0})
  unfolding check_mints write_market
  process a d = do
    tick_limit ← lift (check_params d (a.base_mint.key == a.quote_mint.key))
    m ← check_mints a
    on_book T (write_market r a d m tick_limit)
