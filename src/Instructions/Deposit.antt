-- ===== src/Instructions/Deposit.antt =====
-- program/src/seat/deposit.rs.
use solana_orderbook.Base.{ℕ, ◌+◌, false, List, [], ◌∷◌, ltb, if◌then◌else◌, u64_max}
use solana_orderbook.Base.Bytes.{u16_at, u64_at}
use solana_orderbook.Exec.{Exec, Result, ok, err, pure, gets, ◌>>=◌, ◌>>◌}
use solana_orderbook.Exec.Errors.{error, not_enough_account_keys, not_signer, arithmetic_overflow}
use solana_orderbook.State.Header.{Market}
use solana_orderbook.State.Seats.{Seat}
use solana_orderbook.Book.{settle_seat}
use solana_orderbook.Book.SeatTable.{check_seat}
use solana_orderbook.Runtime.{CheckedTransfer, TokenProgram, World, on_book, received}
use solana_orderbook.Runtime.Accounts.{AccountInfo, ProgramIds}
use solana_orderbook.Runtime.Checks.{◌then◌, require, writable_market, vault_checks, program_checks}
use solana_orderbook.Instructions.{exactly, bump}

-- The addresses of the accounts.
pub record DepositAccounts : Type 0 where
  pub owner : ℕ
  pub owner_base_ata : ℕ
  pub owner_quote_ata : ℕ
  pub base_vault : ℕ
  pub quote_vault : ℕ
  pub base_mint : ℕ
  pub quote_mint : ℕ
  pub base_token_program : ℕ
  pub quote_token_program : ℕ

unfoldable pub check_accounts : ProgramIds → Market → List AccountInfo → Result DepositAccounts
check_accounts ids h
      (owner
        ∷ (market
            ∷ (base_ata
                ∷ (quote_ata
                    ∷ (base_vault
                        ∷ (quote_vault
                            ∷ (base_mint
                                ∷ (quote_mint ∷ (base_program ∷ (quote_program ∷ [])))))))))) =
    require owner.is_signer not_signer
    then writable_market ids h market
    then vault_checks ids h base_vault quote_vault
    then program_checks ids h base_program quote_program
    then ok (record {
      owner = owner.key;
      owner_base_ata = base_ata.key;
      owner_quote_ata = quote_ata.key;
      base_vault = base_vault.key;
      quote_vault = quote_vault.key;
      base_mint = base_mint.key;
      quote_mint = quote_mint.key;
      base_token_program = base_program.key;
      quote_token_program = quote_program.key;
    })
check_accounts ids h accounts = err (error not_enough_account_keys)

pub record DepositInstructionData : Type 0 where
  pub seat_index : ℕ
  pub base_atoms : ℕ
  pub quote_atoms : ℕ

unfoldable pub try_from : List ℕ → Result DepositInstructionData
try_from bytes = exactly 18 bytes (
    ok record {
      seat_index = u16_at 0 bytes;
      base_atoms = u64_at 2 bytes;
      quote_atoms = u64_at 10 bytes;
    })

unfoldable pub credit_base : ℕ → Seat → Result Seat
credit_base delta s =
    if ltb u64_max (s.base_free + delta)
    then err (error arithmetic_overflow)
    else ok (record s { base_free = s.base_free + delta })

unfoldable pub credit_quote : ℕ → Seat → Result Seat
credit_quote delta s =
    if ltb u64_max (s.quote_free + delta)
    then err (error arithmetic_overflow)
    else ok (record s { quote_free = s.quote_free + delta })

-- The transfer of each leg, from the owner to the vault.
unfoldable pub base_leg : Market → DepositAccounts → ℕ → CheckedTransfer
base_leg h a amount = record {
  token_program = a.base_token_program;
  from = a.owner_base_ata;
  mint = a.base_mint;
  to = a.base_vault;
  authority = a.owner;
  amount = amount;
  decimals = h.base_decimals;
  signed = false;
}

unfoldable pub quote_leg : Market → DepositAccounts → ℕ → CheckedTransfer
quote_leg h a amount = record {
  token_program = a.quote_token_program;
  from = a.owner_quote_ata;
  mint = a.quote_mint;
  to = a.quote_vault;
  authority = a.owner;
  amount = amount;
  decimals = h.quote_decimals;
  signed = false;
}

module _ (T : TokenProgram) where
  -- Pull a leg, if it is not zero, and credit the seat with what the vault has received.
  unfoldable pub pull : (ℕ → Seat → Result Seat) → ℕ → CheckedTransfer → Exec (World T) (Unit {0})
  pull credit seat_index t =
      if ltb 0 t.amount
      then (do delta ← received T t; on_book T (settle_seat seat_index (credit delta)))
      else pure tt

  unfoldable pub process : DepositAccounts → DepositInstructionData → Exec (World T) (Unit {0})
  unfolding pull
  process a d = do
    on_book T (check_seat d.seat_index a.owner)
    h ← gets λ w. w.book.header
    pull credit_base d.seat_index (base_leg h a d.base_atoms)
    pull credit_quote d.seat_index (quote_leg h a d.quote_atoms)
    on_book T bump
