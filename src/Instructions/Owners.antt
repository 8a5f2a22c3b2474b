-- ===== src/Instructions/Owners.antt =====
-- The instructions of program/src that name a seat: who may send them.
use solana_orderbook.Base.{
  ℕ, ◌≡◌, refl, ap, ltb, sym, ◌∙◌, subst, true, List, [], ◌∷◌, ◌==◌, leb, not, if◌then◌else◌, arith,
}
use solana_orderbook.Base.Bytes.{u16_at}
use solana_orderbook.Exec.{Result, ok, raise, gets, ◌>>◌}
use solana_orderbook.Exec.Errors.{panicked, invalid_seat_index, invalid_seat_owner}
use solana_orderbook.Exec.Keeps.{Post-ok}
use solana_orderbook.Exec.Triples.{
  Yields, Yields-bind, Yields-gets, Yields-lift, Yields-if, Yields-fail, Yields-raise, Yields-pure,
  Yields-always, Yields-weaken,
}
use solana_orderbook.State.{try_from_u8}
use solana_orderbook.State.Header.{Market}
use solana_orderbook.Book.{Book, M, seat_at}
use solana_orderbook.Book.SeatTable.{check_seat}
use solana_orderbook.Runtime.{TokenProgram, World, on_book}
use solana_orderbook.Runtime.Accounts.{AccountInfo, ProgramIds}
use solana_orderbook.Runtime.Programs.{Runtime}
use solana_orderbook.Runtime.Checks.{◌then◌, owner_and_market, then-first, then-last, require-true}
use solana_orderbook.Instructions.{exactly, by_owner, owner_of}
use solana_orderbook.Instructions.Dispatch.{with_data, makers, payments, process_instruction}
use solana_orderbook.Instructions.CloseSeat
use solana_orderbook.Instructions.MassQuote
use solana_orderbook.Instructions.PlaceLimit
use solana_orderbook.Instructions.Cancel
use solana_orderbook.Instructions.PlaceTake
use solana_orderbook.Instructions.Deposit
use solana_orderbook.Instructions.Withdraw
use solana_orderbook.Instructions.VaultAccounts
use solana_orderbook.Solvency.Vaults.{Yields-on_book}

-- Close a seat, deposit, withdraw, and the orders and quotes of a seat.
pub data NamesSeat : ℕ → Type 0 where
  close_seat : NamesSeat 11
  deposit : NamesSeat 12
  withdraw : NamesSeat 13
  mass_quote : NamesSeat 20
  place_limit : NamesSeat 21
  cancel : NamesSeat 22
  place_take : NamesSeat 30

-- The first account has signed, and owns the seat that the data names.
pub record OwnsSeat (owner : AccountInfo) (bytes : List ℕ) (b : Book) : Type 0 where
  pub signs : owner.is_signer ≡ true
  pub owns : (b.seats (u16_at 0 bytes)).owner ≡ owner.key

read_seat : (i : ℕ) (b : Book) → Yields (λ s _. s ≡ b.seats i) (gets λ b. b.seats i) b
unfolding gets
read_seat i b = record { outcome = refl }

check_seat-Yields :
    (i owner : ℕ) (b : Book) → Yields (λ _ _. (b.seats i).owner ≡ owner) (check_seat i owner) b
unfolding check_seat seat_at
check_seat-Yields i owner b =
    Yields-if (leb 128 i) _ _ b (λ _. Yields-fail invalid_seat_index b)
      λ e.
        Yields-bind (λ s _. s ≡ b.seats i)
          (if ltb i 128 then gets (λ b. b.seats i) else raise panicked) _ b
          (Yields-if (ltb i 128) _ _ b (λ _. read_seat i b) λ _. Yields-raise panicked b)
          λ s t h.
            Yields-if (not (s.owner == owner)) _ _ t (λ _. Yields-fail invalid_seat_owner t)
              λ g. Yields-pure tt t (ground (arith, ap (λ s. s.owner) h, g))

owner_of-signs :
    (ids : ProgramIds) (h : Market) (owner : AccountInfo) (rest : List AccountInfo) (key : ℕ)
    → owner_of ids h (owner ∷ rest) ≡ ok key
    → (owner.is_signer ≡ true) × (owner.key ≡ key)
unfolding owner_of owner_and_market
owner_of-signs ids h owner (market ∷ []) key e =
    let last : ok owner.key ≡ ok key = then-last (owner_and_market ids h owner market) _ _ e in
    (
      require-true _ _
          (then-first _ _ _ (then-first (owner_and_market ids h owner market) (ok owner.key) _ e)),
      ground (arith, last),
    )
owner_of-signs ids h owner rest key e = (ground arith, ground arith)

deposit-signs :
    (ids : ProgramIds) (h : Market) (owner : AccountInfo) (rest : List AccountInfo)
    (a : Deposit.DepositAccounts)
    → Deposit.check_accounts ids h (owner ∷ rest) ≡ ok a
    → (owner.is_signer ≡ true) × (owner.key ≡ a.owner)
unfolding Deposit.check_accounts
deposit-signs ids h owner
      (market
        ∷ (base_ata
            ∷ (quote_ata
                ∷ (base_vault
                    ∷ (quote_vault
                        ∷ (base_mint ∷ (quote_mint ∷ (base_program ∷ (quote_program ∷ [])))))))))
      a e =
    let last : ok _ ≡ ok a = then-last _ _ _ e in
    (
      require-true _ _
          (then-first _ _ _ (then-first _ _ _ (then-first _ _ _ (then-first _ _ _ e)))),
      ground (arith, last),
    )
deposit-signs ids h owner rest a e = (ground arith, ground arith)

withdraw-signs :
    (ids : ProgramIds) (h : Market) (owner : AccountInfo) (rest : List AccountInfo)
    (a : VaultAccounts.VaultAccounts)
    → VaultAccounts.check_accounts VaultAccounts.needs_signer ids h (owner ∷ rest) ≡ ok a
    → (owner.is_signer ≡ true) × (owner.key ≡ a.owner)
unfolding VaultAccounts.check_accounts VaultAccounts.needs_signer
withdraw-signs ids h owner
      (market
        ∷ (base_ata
            ∷ (quote_ata
                ∷ (base_vault
                    ∷ (quote_vault
                        ∷ (vault_authority
                            ∷ (base_mint
                                ∷ (quote_mint ∷ (base_program ∷ (quote_program ∷ []))))))))))
      a e =
    let last : ok _ ≡ ok a = then-last _ _ _ e in
    (
      require-true _ _ (
          then-first _ _ _
            (then-first _ _ _ (then-first _ _ _ (then-first _ _ _ (then-first _ _ _ e))))),
      ground (arith, last),
    )
withdraw-signs ids h owner rest a e = (ground arith, ground arith)

-- Data that are read: the length is right.
exactly-ok :
    {A : Type 0} (n : ℕ) (bytes : List ℕ) (r : Result A) (a : A)
    → exactly n bytes r ≡ ok a
    → r ≡ ok a
unfolding exactly
exactly-ok n bytes r a e = ground arith

module _ (ids : ProgramIds) (owner : AccountInfo) (rest : List AccountInfo) (bytes : List ℕ) where
  -- A handler that checks the seat that the data names before anything else.
  by_owner-Yields :
      {D : Type 0} (read : List ℕ → Result D) (seat_of : D → ℕ) (process : ℕ → D → M (Unit {0}))
      (b : Book)
      → ((d : D) → read bytes ≡ ok d → seat_of d ≡ u16_at 0 bytes)
      → ((key : ℕ) (d : D) → Yields (λ _ _. (b.seats (seat_of d)).owner ≡ key) (process key d) b)
      → Yields (λ _ _. OwnsSeat owner bytes b) (by_owner read process ids (owner ∷ rest) bytes) b
  unfolding by_owner
  by_owner-Yields read seat_of process b named checks =
      Yields-gets (λ b. b.header) _ b
        (Yields-lift _ _ b λ key e. Yields-lift (read bytes) _ b λ d f.
          let (s, k) = owner_of-signs ids b.header owner rest key e in
          Yields-weaken (λ _ _. (b.seats (seat_of d)).owner ≡ key) _ b (checks key d)
            λ _ _ o. record {
              signs = s;
              owns = subst (λ (i : ℕ). (b.seats i).owner ≡ owner.key) (named d f) (o ∙ sym k);
            })

  -- The rest of a handler changes nothing about who its owner was.
  checked-Yields :
      {A : Type 0} (i key : ℕ) (m : M A) (b : Book)
      → Yields (λ _ _. (b.seats i).owner ≡ key) (check_seat i key >> m) b
  checked-Yields i key m b =
      Yields-bind (λ _ _. (b.seats i).owner ≡ key) _ _ b (check_seat-Yields i key b)
        λ _ t o. Yields-always m t λ _ _. o

module _ (T : TokenProgram) (r : Runtime) (owner : AccountInfo) (rest : List AccountInfo)
    (bytes : List ℕ) (w : World T) where
  abbrev Authorized : Unit {0} → World T → Type 0
  Authorized u v = OwnsSeat owner bytes w.book

  on_book-Authorized :
      (m : M (Unit {0}))
      → Yields (λ _ _. OwnsSeat owner bytes w.book) m w.book
      → Yields Authorized (on_book T m) w
  on_book-Authorized m y = Yields-on_book T (λ _ _. OwnsSeat owner bytes w.book) m w y λ _ _ o. o

  seat-Owns :
      (i key : ℕ)
      → i ≡ u16_at 0 bytes
      → owner.is_signer ≡ true
      → owner.key ≡ key
      → Yields (λ _ _. OwnsSeat owner bytes w.book) (check_seat i key) w.book
  seat-Owns i key e s k =
      Yields-weaken (λ _ _. (w.book.seats i).owner ≡ key) _ w.book (check_seat-Yields i key w.book)
        λ _ _ o. record {
          signs = s;
          owns = subst (λ (j : ℕ). (w.book.seats j).owner ≡ owner.key) e (o ∙ sym k);
        }

  close_seat-named : (i : ℕ) → CloseSeat.try_from bytes ≡ ok i → i ≡ u16_at 0 bytes
  unfolding CloseSeat.try_from
  close_seat-named i e = ground (arith, exactly-ok 2 bytes (ok _) i e)

  cancel-named :
      (d : Cancel.CancelInstructionData)
      → Cancel.try_from bytes ≡ ok d
      → d.seat_index ≡ u16_at 0 bytes
  unfolding Cancel.try_from exactly
  cancel-named d e = ground arith

  mass_quote-named :
      (d : MassQuote.MassQuoteInstructionData)
      → MassQuote.try_from bytes ≡ ok d
      → d.seat_index ≡ u16_at 0 bytes
  unfolding MassQuote.try_from
  mass_quote-named d e = ground arith

  place_limit-named :
      (d : PlaceLimit.PlaceLimitInstructionData)
      → PlaceLimit.try_from bytes ≡ ok d
      → d.seat_index ≡ u16_at 0 bytes
  unfolding PlaceLimit.try_from exactly try_from_u8
  place_limit-named d e = ground arith

  place_take-named :
      (d : PlaceTake.PlaceTakeInstructionData)
      → PlaceTake.try_from bytes ≡ ok d
      → d.seat_index ≡ u16_at 0 bytes
  unfolding PlaceTake.try_from exactly try_from_u8
  place_take-named d e = ground arith

  withdraw-named :
      (d : Withdraw.WithdrawInstructionData)
      → Withdraw.try_from bytes ≡ ok d
      → d.seat_index ≡ u16_at 0 bytes
  unfolding Withdraw.try_from exactly
  withdraw-named d e = ground arith

  deposit-named :
      (d : Deposit.DepositInstructionData)
      → Deposit.try_from bytes ≡ ok d
      → d.seat_index ≡ u16_at 0 bytes
  unfolding Deposit.try_from exactly
  deposit-named d e = ground arith

  deposit-Authorized : Yields Authorized (process_instruction T r (owner ∷ rest) (12 ∷ bytes)) w
  unfolding process_instruction makers payments with_data Deposit.process
  deposit-Authorized = Yields-gets _ _ w (
      Yields-lift _ _ w λ a e. Yields-lift (Deposit.try_from bytes) _ w λ d f.
        let (s, k) = deposit-signs r.ids w.book.header owner rest a e in
        Yields-bind (λ _ _. OwnsSeat owner bytes w.book) _ _ w
          (on_book-Authorized _ (seat-Owns d.seat_index a.owner (deposit-named d f) s k))
          λ _ t o. Yields-always _ t λ _ _. o)

  withdraw-Authorized : Yields Authorized (process_instruction T r (owner ∷ rest) (13 ∷ bytes)) w
  unfolding process_instruction makers payments with_data Withdraw.process
  withdraw-Authorized = Yields-gets _ _ w (
      Yields-lift _ _ w λ a e. Yields-lift (Withdraw.try_from bytes) _ w λ d f.
        let (s, k) = withdraw-signs r.ids w.book.header owner rest a e in
        Yields-bind (λ _ _. OwnsSeat owner bytes w.book) _ _ w
          (on_book-Authorized _ (seat-Owns d.seat_index a.owner (withdraw-named d f) s k))
          λ _ t o. Yields-always _ t λ _ _. o)

  process_instruction-Yields :
      {discriminator : ℕ}
      → NamesSeat discriminator
      → Yields Authorized (process_instruction T r (owner ∷ rest) (discriminator ∷ bytes)) w
  unfolding process_instruction makers CloseSeat.process MassQuote.process PlaceLimit.process
      Cancel.process PlaceTake.process
  process_instruction-Yields close_seat = on_book-Authorized _ (
      by_owner-Yields r.ids owner rest bytes _ (λ i. i) _ w.book close_seat-named
        λ key d. checked-Yields r.ids owner rest bytes d key _ w.book)
  process_instruction-Yields deposit = deposit-Authorized
  process_instruction-Yields withdraw = withdraw-Authorized
  process_instruction-Yields mass_quote = on_book-Authorized _ (
      by_owner-Yields r.ids owner rest bytes _ (λ d. d.seat_index) _ w.book mass_quote-named
        λ key d. checked-Yields r.ids owner rest bytes d.seat_index key _ w.book)
  process_instruction-Yields place_limit = on_book-Authorized _ (
      by_owner-Yields r.ids owner rest bytes _ (λ d. d.seat_index) _ w.book place_limit-named
        λ key d. checked-Yields r.ids owner rest bytes d.seat_index key _ w.book)
  process_instruction-Yields cancel = on_book-Authorized _ (
      by_owner-Yields r.ids owner rest bytes _ (λ d. d.seat_index) _ w.book cancel-named
        λ key d. checked-Yields r.ids owner rest bytes d.seat_index key _ w.book)
  process_instruction-Yields place_take = on_book-Authorized _ (
      by_owner-Yields r.ids owner rest bytes _ (λ d. d.seat_index) _ w.book place_take-named
        λ key d. checked-Yields r.ids owner rest bytes d.seat_index key _ w.book)

  -- If `process_instruction` succeeds with a discriminator that names a seat (close a seat,
  -- deposit, withdraw, mass quote, place an order, cancel, take), the first account has signed,
  -- and it owns the seat of the book whose index is the first two bytes of the data.
  pub process_instruction-OwnsSeat :
      (discriminator : ℕ) (v : World T)
      → NamesSeat discriminator
      → process_instruction T r (owner ∷ rest) (discriminator ∷ bytes) w ≡ ok (tt, v)
      → OwnsSeat owner bytes w.book
  process_instruction-OwnsSeat discriminator v n e =
      Post-ok Authorized ((process_instruction-Yields n).outcome) e
