-- ===== src/Runtime/Accounts.antt =====
-- The accounts that an instruction names, and the checks of `Market::check` and `Config::check` in
-- program/src/state.rs.
use solana_orderbook.Base.{ℕ, ◌+◌, ◌*◌, Bool, not, ◌==◌, ltb, if◌then◌else◌}
use solana_orderbook.Exec.{Result, ok, err}
use solana_orderbook.Exec.Errors.{
  clob, invalid_account_owner, invalid_account_length, invalid_version,
}
use solana_orderbook.State.Constants.{
  min_market_len, market_version, pool_offset, node_len, config_len, config_version,
}
use solana_orderbook.State.Header.{Market, Config}

-- What the runtime says of an account.
pub record AccountInfo : Type 0 where
  pub key : ℕ
  pub is_signer : Bool
  pub is_writable : Bool
  pub owner : ℕ
  pub data_len : ℕ

-- The program's address, and those of the token programs.
pub record ProgramIds : Type 0 where
  pub program_id : ℕ
  pub token_id : ℕ
  pub token_2022_id : ℕ

unfoldable pub check_market : ProgramIds → Market → AccountInfo → Result (Unit {0})
check_market ids h a =
    if not (a.owner == ids.program_id)
    then err (clob invalid_account_owner)
    else (if ltb a.data_len min_market_len
        then err (clob invalid_account_length)
        else (if not (h.version == market_version)
            then err (clob invalid_version)
            else (if not (a.data_len == (pool_offset + h.order_pool_capacity * node_len))
                then err (clob invalid_account_length)
                else ok tt)))

unfoldable pub check_config : ProgramIds → Config → AccountInfo → Result (Unit {0})
check_config ids c a =
    if not (a.owner == ids.program_id)
    then err (clob invalid_account_owner)
    else (if not (a.data_len == config_len)
        then err (clob invalid_account_length)
        else (if not (c.version == config_version) then err (clob invalid_version) else ok tt))
