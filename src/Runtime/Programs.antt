-- ===== src/Runtime/Programs.antt =====
-- What the program asks of the system program and of the runtime's address derivation. Neither is part
-- of it: both are parameters.
use solana_orderbook.Base.{ℕ, List, [], ◌∷◌}
use solana_orderbook.Base.Bytes.{from_le}
use solana_orderbook.Exec.{Result}
use solana_orderbook.Runtime.Accounts.{ProgramIds}

-- The addresses, the clock, the compute budget, and the calls. An address is a number, and so is each
-- seed.
pub record Runtime : Type 0 where
  pub ids : ProgramIds
  pub associated_token_id : ℕ
  pub slot : ℕ
  pub budget : ℕ
  pub find_program_address : List ℕ → ℕ → ℕ × ℕ
  pub create_account : (payer account len : ℕ) → Result (Unit {0})

-- `VAULT_SEED` and `CONFIG_SEED`.
abbrev pub vault_seed : ℕ
vault_seed = from_le 5 (118 ∷ 97 ∷ 117 ∷ 108 ∷ 116 ∷ [])

abbrev pub config_seed : ℕ
config_seed = from_le 6 (99 ∷ 111 ∷ 110 ∷ 102 ∷ 105 ∷ 103 ∷ [])
