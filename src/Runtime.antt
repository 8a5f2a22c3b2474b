-- ===== src/Runtime.antt =====
-- What surrounds the market account: the other accounts of a transaction, the token programs, and the
-- clock. The token programs are not part of the program: they are a parameter, with the behaviour
-- that the program relies on.
pub mod Accounts
pub mod Checks
pub mod Programs
use solana_orderbook.Base.{
  ℕ, ◌+◌, ◌-◌, ◌≤◌, ◌≡◌, ◌≢◌, Bool, true, false, List, ltb, if◌then◌else◌, u64_max,
}
use solana_orderbook.Base.Bytes.{length, drop, from_le}
use solana_orderbook.Exec.{Exec, Result, ok, err, lift, ◌>>=◌, ◌>>◌}
use solana_orderbook.Exec.Errors.{clob, invalid_account_length, invalid_state}
use solana_orderbook.State.Header.{Config}
use solana_orderbook.Book.{Book, M}

-- `CheckedTransfer`. It is signed when it is invoked with the seeds of the vault authority.
pub record CheckedTransfer : Type 0 where
  pub token_program : ℕ
  pub from : ℕ
  pub mint : ℕ
  pub to : ℕ
  pub authority : ℕ
  pub amount : ℕ
  pub decimals : ℕ
  pub signed : Bool

-- The helper `token_amount`, of an account's data.
unfoldable pub token_amount : List ℕ → Result ℕ
token_amount bytes =
    if ltb (length bytes) 72
    then err (clob invalid_account_length)
    else ok (from_le 8 (drop 64 bytes))

-- `post.checked_sub(pre).ok_or(ClobError::InvalidState)`.
unfoldable pub checked_delta : ℕ → ℕ → Result ℕ
checked_delta pre post = if ltb post pre then err (clob invalid_state) else ok (post - pre)

-- The token accounts, and `TransferChecked` of the two token programs.
pub record TokenProgram : Type 1 where
  pub State : Type 0
  pub data_of : ℕ → State → List ℕ
  pub invoke : CheckedTransfer → State → Result State

module _ (T : TokenProgram) where
  -- The amount that a token account holds.
  abbrev pub held : ℕ → T.State → ℕ
  held key s = from_le 8 (drop 64 (T.data_of key s))

  -- The documented behaviour of a transfer: it takes no more than its amount from its source, and
  -- nothing from any other account; and the source of a transfer that the vault authority has not
  -- signed is no vault, since a program-derived address signs in no other way.
  pub record Custody (base_vault quote_vault : ℕ) : Type 0 where
    pub apart : base_vault ≢ quote_vault
    pub eight_bytes : (key : ℕ) (s : T.State) → held key s ≤ u64_max
    pub debit :
        (t : CheckedTransfer) (s s' : T.State)
        → T.invoke t s ≡ ok s'
        → held t.from s ≤ held t.from s' + t.amount
    pub others :
        (t : CheckedTransfer) (s s' : T.State) (key : ℕ)
        → T.invoke t s ≡ ok s'
        → key ≢ t.from
        → held key s ≤ held key s'
    pub unsigned :
        (t : CheckedTransfer) (s s' : T.State)
        → T.invoke t s ≡ ok s'
        → t.signed ≡ false
        → (t.from ≢ base_vault) × (t.from ≢ quote_vault)

  -- A market among the token accounts, and the config accounts by address.
  pub record World : Type 0 where
    pub book : Book
    pub configs : ℕ → Config
    pub tokens : T.State

  -- An operation of the book as one of the world, and one of the token programs.
  unfoldable pub put_book : {A : Type 0} → World → Result (A × Book) → Result (A × World)
  put_book w (ok (a, b)) = ok (a, record w { book = b })
  put_book w (err e) = err e

  unfoldable pub on_book : {A : Type 0} → M A → Exec World A
  unfolding put_book
  on_book m w = put_book w (m w.book)

  unfoldable pub put_tokens : World → Result T.State → Result (Unit {0} × World)
  put_tokens w (ok s) = ok (tt, record w { tokens = s })
  put_tokens w (err e) = err e

  unfoldable pub transfer : CheckedTransfer → Exec World (Unit {0})
  unfolding put_tokens
  transfer t w = put_tokens w (T.invoke t w.tokens)

  unfoldable pub read_amount : World → Result ℕ → Result (ℕ × World)
  read_amount w (ok n) = ok (n, w)
  read_amount w (err e) = err e

  unfoldable pub amount_of : ℕ → Exec World ℕ
  unfolding read_amount token_amount
  amount_of key w = read_amount w (token_amount (T.data_of key w.tokens))

  -- What the destination has received of a transfer.
  unfoldable pub received : CheckedTransfer → Exec World ℕ
  unfolding amount_of transfer
  received t = do
    pre ← amount_of t.to
    transfer t
    post ← amount_of t.to
    lift (checked_delta pre post)
