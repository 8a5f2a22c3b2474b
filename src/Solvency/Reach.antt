-- ===== src/Solvency/Reach.antt =====
-- The worlds that the instructions of program/src/lib.rs reach, whatever happens around them.
use solana_orderbook.Base.{ℕ, ◌≤◌, ◌≡◌, List, arith}
use solana_orderbook.Exec.{ok}
use solana_orderbook.Runtime.{TokenProgram, World, Custody, held}
use solana_orderbook.Runtime.Accounts.{AccountInfo}
use solana_orderbook.Runtime.Programs.{Runtime}
use solana_orderbook.Instructions.Dispatch.{process_instruction}
use solana_orderbook.Solvency.Program.{IsSolvent, process_instruction-IsSolvent}

-- One turn: an instruction of anyone's, with any accounts and any data, that succeeds; or a change of
-- the token accounts by other programs, which takes nothing from the vaults.
pub data Turn (T : TokenProgram) (base_vault quote_vault : ℕ) (w : World T) : World T → Type 0 where
  instruction :
      {v : World T} (r : Runtime) (accounts : List AccountInfo) (bytes : List ℕ)
      → process_instruction T r accounts bytes w ≡ ok (tt, v)
      → Turn T base_vault quote_vault w v
  outside :
      (s : T.State)
      → held T base_vault w.tokens ≤ held T base_vault s
      → held T quote_vault w.tokens ≤ held T quote_vault s
      → Turn T base_vault quote_vault w (record w { tokens = s })

pub data Reach (T : TokenProgram) (base_vault quote_vault : ℕ) (w : World T)
    : World T → Type 0 where
  here : Reach T base_vault quote_vault w w
  next :
      {v u : World T}
      → Reach T base_vault quote_vault w v
      → Turn T base_vault quote_vault v u
      → Reach T base_vault quote_vault w u

module _ (T : TokenProgram) (base_vault quote_vault : ℕ)
    (c : Custody T base_vault quote_vault) where
  Turn-IsSolvent :
      (w v : World T)
      → Turn T base_vault quote_vault w v
      → IsSolvent T base_vault quote_vault w
      → IsSolvent T base_vault quote_vault v
  Turn-IsSolvent w v (instruction r accounts bytes e) k =
      process_instruction-IsSolvent T base_vault quote_vault r accounts bytes w v c k e
  Turn-IsSolvent w v (outside s p q) k = record {
    healthy = k.healthy;
    base_funds = omega (arith, k.base_funds, p);
    quote_funds = omega (arith, k.quote_funds, q);
  }

  -- Under token programs with the documented behaviour of a transfer, every world that is reached
  -- from a solvent one is solvent: by any number of successful instructions, with any accounts
  -- and data, clock and runtime, in any order, and between them any changes of the token accounts
  -- that take nothing from the two vaults.
  pub Reach-IsSolvent :
      (w v : World T)
      → IsSolvent T base_vault quote_vault w
      → Reach T base_vault quote_vault w v
      → IsSolvent T base_vault quote_vault v
  Reach-IsSolvent w v k here = k
  Reach-IsSolvent w v k (next r t) = Turn-IsSolvent _ v t (Reach-IsSolvent w _ k r)
