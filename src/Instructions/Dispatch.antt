-- ===== src/Instructions/Dispatch.antt =====
-- `process_instruction` of program/src/lib.rs.
use solana_orderbook.Base.{ℕ, List, [], ◌∷◌, ◌==◌, if◌then◌else◌}
use solana_orderbook.Exec.{Exec, Result, ok, raise, lift, gets, ◌>>=◌}
use solana_orderbook.Exec.Errors.{error, invalid_instruction_data}
use solana_orderbook.Runtime.{TokenProgram, World, on_book}
use solana_orderbook.Runtime.Accounts.{AccountInfo}
use solana_orderbook.Runtime.Programs.{Runtime}
use solana_orderbook.Instructions.Cancel
use solana_orderbook.Instructions.MassQuote
use solana_orderbook.Instructions.PlaceLimit
use solana_orderbook.Instructions.PlaceTake
use solana_orderbook.Instructions.CloseSeat
use solana_orderbook.Instructions.ClaimSeat
use solana_orderbook.Instructions.Reanchor
use solana_orderbook.Instructions.ReapExpired
use solana_orderbook.Instructions.VaultAccounts
use solana_orderbook.Instructions.Deposit
use solana_orderbook.Instructions.Withdraw
use solana_orderbook.Instructions.Swap
use solana_orderbook.Instructions.CollectFees
use solana_orderbook.Instructions.UpdateFee
use solana_orderbook.Instructions.UpdateConfig
use solana_orderbook.Instructions.CreateConfig
use solana_orderbook.Instructions.CreateMarket

module _ (T : TokenProgram) (r : Runtime) (accounts : List AccountInfo) where
  -- The accounts are read before the data, and both before the book is touched.
  unfoldable pub with_data :
      {A D : Type 0}
      → (World T → Result A)
      → Result D
      → (A → D → Exec (World T) (Unit {0}))
      → Exec (World T) (Unit {0})
  with_data check bytes process = do
    checked ← gets check
    a ← lift checked
    d ← lift bytes
    process a d

  -- The instructions of a seat's owner.
  unfoldable pub makers : ℕ → List ℕ → Exec (World T) (Unit {0}) → Exec (World T) (Unit {0})
  makers discriminator bytes otherwise =
      if discriminator == 11
      then on_book T (CloseSeat.run r.ids accounts bytes)
      else (if discriminator == 20
          then on_book T (MassQuote.run r.budget r.ids accounts bytes)
          else (if discriminator == 21
              then on_book T (PlaceLimit.run r.budget r.slot r.ids accounts bytes)
              else (if discriminator == 22
                  then on_book T (Cancel.run r.ids accounts bytes)
                  else (if discriminator == 30
                      then on_book T (PlaceTake.run r.budget r.slot r.ids accounts bytes)
                      else otherwise))))

  -- The instructions that move tokens.
  unfoldable pub payments : ℕ → List ℕ → Exec (World T) (Unit {0}) → Exec (World T) (Unit {0})
  unfolding with_data
  payments discriminator bytes otherwise =
      if discriminator == 3
      then with_data (λ w. CollectFees.check_accounts r.ids w.book.header accounts) (ok tt)
          (λ a _. CollectFees.process T a)
      else (if discriminator == 12
          then with_data (λ w. Deposit.check_accounts r.ids w.book.header accounts)
              (Deposit.try_from bytes) (Deposit.process T)
          else (if discriminator == 13
              then with_data
                  (λ w.
                    VaultAccounts.check_accounts VaultAccounts.needs_signer r.ids w.book.header
                      accounts)
                  (Withdraw.try_from bytes) (Withdraw.process T)
              else (if discriminator == 31
                  then with_data
                      (λ w. VaultAccounts.check_accounts (λ _. ok tt) r.ids w.book.header accounts)
                      (Swap.try_from bytes) (Swap.process T r.budget r.slot)
                  else otherwise)))

  -- The instructions of the authorities, and the cranks.
  unfoldable pub upkeep : ℕ → List ℕ → Exec (World T) (Unit {0}) → Exec (World T) (Unit {0})
  unfolding with_data
  upkeep discriminator bytes otherwise =
      if discriminator == 2
      then with_data (λ w. UpdateFee.check_accounts r.ids w.book.header accounts)
          (UpdateFee.try_from bytes) (λ _ d. on_book T (UpdateFee.process d))
      else (if discriminator == 5
          then with_data (λ w. UpdateConfig.check_accounts r.ids w.configs accounts)
              (UpdateConfig.try_from bytes) (UpdateConfig.process T)
          else (if discriminator == 10
              then with_data (λ w. ClaimSeat.try_from r.ids w.book.header w.configs accounts)
                  (ok tt) (λ a _. on_book T (ClaimSeat.process a))
              else (if discriminator == 40
                  then with_data
                      (λ w. Reanchor.check_accounts r.ids w.book.header w.configs accounts)
                      (Reanchor.try_from bytes) (λ _ d. on_book T (Reanchor.process r.budget d))
                  else (if discriminator == 41
                      then with_data (λ w. ReapExpired.check_accounts r.ids w.book.header accounts)
                          (ReapExpired.try_from bytes)
                          (λ _ d. on_book T (ReapExpired.process r.budget r.slot d))
                      else otherwise))))

  unfoldable pub listings : ℕ → List ℕ → Exec (World T) (Unit {0}) → Exec (World T) (Unit {0})
  unfolding with_data
  listings discriminator bytes otherwise =
      if discriminator == 0
      then with_data (λ w. CreateMarket.check_accounts r.ids w.book.header w.configs accounts)
          (CreateMarket.try_from bytes) (CreateMarket.process T r)
      else (if discriminator == 4
          then with_data (λ w. CreateConfig.check_accounts accounts) (UpdateConfig.try_from bytes)
              (CreateConfig.process T r)
          else otherwise)

  unfoldable pub process_instruction : List ℕ → Exec (World T) (Unit {0})
  unfolding makers payments upkeep listings
  process_instruction [] = raise (error invalid_instruction_data)
  process_instruction (discriminator ∷ bytes) = makers discriminator bytes (
      payments discriminator bytes (
        upkeep discriminator bytes
          (listings discriminator bytes (raise (error invalid_instruction_data)))))
