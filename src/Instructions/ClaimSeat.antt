-- ===== src/Instructions/ClaimSeat.antt =====
-- program/src/seat/claim_seat.rs, without its event log.
use solana_orderbook.Base.{ℕ, List, [], ◌∷◌, ◌==◌, not}
use solana_orderbook.Exec.{Result, ok, err, ◌>>◌}
use solana_orderbook.Exec.Errors.{
  error, not_enough_account_keys, not_signer, invalid_program_authority, zero_authority,
}
use solana_orderbook.State.Header.{Market, Config}
use solana_orderbook.Book.{M}
use solana_orderbook.Book.SeatTable.{claim_seat}
use solana_orderbook.Runtime.Accounts.{AccountInfo, ProgramIds}
use solana_orderbook.Runtime.Checks.{◌then◌, require, writable_market, config_checks}
use solana_orderbook.Instructions.{bump}

-- The new seat's owner.
unfoldable pub try_from : ProgramIds → Market → (ℕ → Config) → List AccountInfo → Result ℕ
try_from ids h configs (seat_authority ∷ (owner ∷ (config ∷ (market ∷ [])))) =
    require seat_authority.is_signer not_signer
    then writable_market ids h market
    then config_checks ids h (configs config.key) config
    then require ((configs config.key).seat_authority == seat_authority.key)
        invalid_program_authority
    then require (not (owner.key == 0)) zero_authority
    then ok owner.key
try_from ids h configs accounts = err (error not_enough_account_keys)

unfoldable pub process : ℕ → M (Unit {0})
process owner = do claim_seat owner; bump
