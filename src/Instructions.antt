-- ===== src/Instructions.antt =====
-- The instruction handlers of program/src, and their dispatch. A handler checks its accounts, reads its
-- data, and works on the book; the checks read the accounts in the order of the source.
pub mod Cancel
pub mod MassQuote
pub mod PlaceLimit
pub mod PlaceTake
pub mod CloseSeat
pub mod ClaimSeat
pub mod Reanchor
pub mod ReapExpired
pub mod VaultAccounts
pub mod Deposit
pub mod Withdraw
pub mod Swap
pub mod CollectFees
pub mod UpdateFee
pub mod UpdateConfig
pub mod CreateConfig
pub mod CreateMarket
pub mod Dispatch
pub mod Owners
use solana_orderbook.Base.{ℕ, Bool, List, [], ◌∷◌, ◌==◌, not, if◌then◌else◌}
use solana_orderbook.Base.Bytes.{length}
use solana_orderbook.Exec.{Result, ok, err, gets, lift, modify, ◌>>=◌, ◌>>◌}
use solana_orderbook.Exec.Errors.{error, invalid_instruction_data, not_enough_account_keys}
use solana_orderbook.State.Header.{Market, bump_seq}
use solana_orderbook.Book.{M, with_header}
use solana_orderbook.Runtime.Accounts.{AccountInfo, ProgramIds}
use solana_orderbook.Runtime.Checks.{owner_and_market, ◌then◌}

-- The data must be exactly this long.
unfoldable pub exactly : {A : Type 0} → ℕ → List ℕ → Result A → Result A
exactly n bytes r = if not (length bytes == n) then err (error invalid_instruction_data) else r

-- `[owner, market]`, for the instructions of a seat's owner.
unfoldable pub owner_of : ProgramIds → Market → List AccountInfo → Result ℕ
owner_of ids h (owner ∷ (market ∷ [])) = owner_and_market ids h owner market then ok owner.key
owner_of ids h accounts = err (error not_enough_account_keys)

unfoldable pub bump : M (Unit {0})
bump = modify (with_header bump_seq)

-- A handler over `[owner, market]`.
unfoldable pub by_owner :
    {D : Type 0}
    → (List ℕ → Result D)
    → (ℕ → D → M (Unit {0}))
    → ProgramIds
    → List AccountInfo
    → List ℕ
    → M (Unit {0})
by_owner read process ids accounts bytes = do
  h ← gets λ b. b.header
  owner ← lift (owner_of ids h accounts)
  d ← lift (read bytes)
  process owner d
