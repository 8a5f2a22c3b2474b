-- ===== src/Runtime/Checks.antt =====
-- The account checks that several instructions share.
use solana_orderbook.Base.{ℕ, ◌≡◌, refl, arith, Bool, true, false, ◌==◌, if◌then◌else◌}
use solana_orderbook.Exec.{Result, ok, err}
use solana_orderbook.Exec.Errors.{
  clob, not_signer, not_mutable, invalid_token_address, unsupported_token_program,
  invalid_program_authority, ClobError,
}
use solana_orderbook.State.Constants.{token_program_2022}
use solana_orderbook.State.Header.{Market, Config}
use solana_orderbook.Runtime.Accounts.{AccountInfo, ProgramIds, check_market, check_config}

-- The next check, if this one has passed.
infixl 5 ◌then◌
unfoldable pub ◌then◌ : {A : Type 0} → Result (Unit {0}) → Result A → Result A
◌then◌ (ok u) r = r
◌then◌ (err e) r = err e

unfoldable pub require : Bool → ClobError → Result (Unit {0})
require c e = if c then ok tt else err (clob e)

-- `Market::base_token_program_id`, `quote_token_program_id`.
unfoldable pub token_program_id : ProgramIds → ℕ → ℕ
token_program_id ids flag = if flag == token_program_2022 then ids.token_2022_id else ids.token_id

module _ (ids : ProgramIds) (h : Market) where
  -- The market is writable, and a market of this program.
  unfoldable pub writable_market : AccountInfo → Result (Unit {0})
  unfolding ◌then◌ require
  writable_market market = require market.is_writable not_mutable then check_market ids h market

  -- Cancel, PlaceLimit, PlaceTake, MassQuote and CloseSeat.
  unfoldable pub owner_and_market : AccountInfo → AccountInfo → Result (Unit {0})
  unfolding ◌then◌ require
  owner_and_market owner market = require owner.is_signer not_signer then writable_market market

  unfoldable pub vault_checks : AccountInfo → AccountInfo → Result (Unit {0})
  unfolding ◌then◌ require
  vault_checks base_vault quote_vault =
      require (base_vault.key == h.base_vault) invalid_token_address
      then require (quote_vault.key == h.quote_vault) invalid_token_address

  unfoldable pub program_checks : AccountInfo → AccountInfo → Result (Unit {0})
  unfolding ◌then◌ require token_program_id
  program_checks base_program quote_program =
      require (base_program.key == token_program_id ids h.base_token_program)
        unsupported_token_program
      then require (quote_program.key == token_program_id ids h.quote_token_program)
          unsupported_token_program

  -- An account of the market's config.
  unfoldable pub config_checks : Config → AccountInfo → Result (Unit {0})
  unfolding ◌then◌ require
  config_checks c config =
      check_config ids c config then require (h.config == config.key) invalid_program_authority

-- A chain of checks that passes: its first part does, and its last.
pub then-first :
    {A : Type 0} (r : Result (Unit {0})) (s : Result A) (a : A) → (r then s) ≡ ok a → r ≡ ok tt
unfolding ◌then◌
then-first (ok u) s a e = refl
then-first (err x) s a e = ground arith

pub then-last :
    {A : Type 0} (r : Result (Unit {0})) (s : Result A) (a : A) → (r then s) ≡ ok a → s ≡ ok a
unfolding ◌then◌
then-last (ok u) s a e = e
then-last (err x) s a e = ground arith

pub required : (x y : ℕ) (e : ClobError) → require (x == y) e ≡ ok tt → x ≡ y
unfolding require
required x y e p = ground arith

pub require-true : (c : Bool) (e : ClobError) → require c e ≡ ok tt → c ≡ true
unfolding require
require-true true e p = refl
require-true false e p = ground arith
