-- ===== src/Solvency/Exits.antt =====
-- The owner of a seat can always withdraw its free balances: program/src/seat/withdraw.rs.
use solana_orderbook.Base.{
  ℕ, ◌+◌, ◌-◌, ◌≤◌, ◌<◌, ◌≡◌, refl, sym, subst, ltb, lt→ltb, arith, update_self,
}
use solana_orderbook.Exec.{Result, ok, gets, pure, modify, lift, ◌>>=◌}
use solana_orderbook.Exec.Runs.{
  Runs, Runs-weaken, Runs-ok, Runs-pure, Runs-if, Runs-and, Runs-bind, Runs-gets,
}
use solana_orderbook.State.Header.{Market, bump_seq}
use solana_orderbook.State.Seats.{Seat}
use solana_orderbook.Book.{Book, with_header, with_seat, seat_at, put_seat, settle_seat}
use solana_orderbook.Book.SeatTable.{check_seat}
use solana_orderbook.Book.Claims.{check_seat-owner}
use solana_orderbook.Runtime.{
  CheckedTransfer, TokenProgram, World, Custody, held, on_book, put_book, transfer, put_tokens,
}
use solana_orderbook.Instructions.{bump}
use solana_orderbook.Instructions.Withdraw
use solana_orderbook.Instructions.Withdraw.{asked, debit, WithdrawInstructionData}
use solana_orderbook.Instructions.VaultAccounts.{VaultAccounts, base_out, quote_out, push}
use solana_orderbook.Solvency.Owing.{bump-KeepsSound}
use solana_orderbook.Solvency.Vaults.{Covers, on_book-Covers, settle-Covers}
use solana_orderbook.Solvency.Transfers.{push_base, push_quote}
use solana_orderbook.Solvency.Payments.{debit-exact}
use solana_orderbook.Solvency.Program.{IsSolvent}

-- What is asked for is there.
pub record IsFunded (owner : ℕ) (d : WithdrawInstructionData) (b : Book) : Type 0 where
  pub seat : d.seat_index < 128
  pub owned : (b.seats d.seat_index).owner ≡ owner
  pub base : asked d.base_atoms (b.seats d.seat_index).base_free ≤ (b.seats d.seat_index).base_free
  pub quote :
      asked d.quote_atoms (b.seats d.seat_index).quote_free ≤ (b.seats d.seat_index).quote_free

-- The token programs make the two transfers out of the vaults of the market with header `h`. `Ready`
-- stands for what they ask of the accounts besides the balance: that the mints are these, with the
-- decimals of the header, that the vaults are the authority's and not frozen, that the destinations
-- are there and have room for what the mints have issued. A transfer keeps it.
pub record Payable (T : TokenProgram) (a : VaultAccounts) (h : Market) (w : World T) : Type 1 where
  pub Ready : T.State → Type 0
  pub ready : Ready w.tokens
  pub base :
      (amount : ℕ) (s : T.State)
      → Ready s
      → amount ≤ held T a.base_vault s
      → (s' : T.State) × (Ready s' × (T.invoke (base_out h a amount) s ≡ ok s'))
  pub quote :
      (amount : ℕ) (s : T.State)
      → Ready s
      → amount ≤ held T a.quote_vault s
      → (s' : T.State) × (Ready s' × (T.invoke (quote_out h a amount) s ≡ ok s'))

-- The seat after the withdrawal.
abbrev pub Paid : ℕ → ℕ → Seat → Seat → Type 0
Paid base quote s t = (t.base_free + base ≡ s.base_free) × (t.quote_free + quote ≡ s.quote_free)

debited : ℕ → ℕ → Seat → Seat
debited base quote s = record s {
  base_free = s.base_free - base;
  quote_free = s.quote_free - quote;
}

debit-ok :
    (base quote : ℕ) (s : Seat)
    → base ≤ s.base_free
    → quote ≤ s.quote_free
    → debit base quote s ≡ ok (debited base quote s)
unfolding debit debited
debit-ok base quote s p q = ground arith

debited-Paid :
    (base quote : ℕ) (s : Seat)
    → base ≤ s.base_free
    → quote ≤ s.quote_free
    → Paid base quote s (debited base quote s)
unfolding debited
debited-Paid base quote s p q = (omega arith, omega arith)

settle_seat-ok :
    (i : ℕ) (f : Seat → Result Seat) (b : Book) (s : Seat)
    → i < 128
    → f (b.seats i) ≡ ok s
    → settle_seat i f b ≡ ok (tt, with_seat i s b)
unfolding settle_seat seat_at put_seat ◌>>=◌ gets lift modify
settle_seat-ok i f b s small e = rw (lt→ltb i 128 small, e) refl

seat_at-ok : (i : ℕ) (b : Book) → i < 128 → seat_at i b ≡ ok (b.seats i, b)
unfolding seat_at gets
seat_at-ok i b small = rw (lt→ltb i 128 small) refl

-- Only the decimals of the header matter to a transfer.
base_out-decimals :
    (h g : Market) (a : VaultAccounts) (amount : ℕ)
    → h.base_decimals ≡ g.base_decimals
    → base_out h a amount ≡ base_out g a amount
unfolding base_out
base_out-decimals h g a amount e = rw e refl

quote_out-decimals :
    (h g : Market) (a : VaultAccounts) (amount : ℕ)
    → h.quote_decimals ≡ g.quote_decimals
    → quote_out h a amount ≡ quote_out g a amount
unfolding quote_out
quote_out-decimals h g a amount e = rw e refl

module _ (T : TokenProgram) where
  on_book-ok :
      {A : Type 0} (m : Book → Result (A × Book)) (a : A) (t : Book) (w : World T)
      → m w.book ≡ ok (a, t)
      → on_book T m w ≡ ok (a, record w { book = t })
  unfolding on_book put_book
  on_book-ok m a t w e = rw e refl

  transfer-ok :
      (t : CheckedTransfer) (w : World T) (s : T.State)
      → T.invoke t w.tokens ≡ ok s
      → transfer T t w ≡ ok (tt, record w { tokens = s })
  unfolding transfer put_tokens
  transfer-ok t w s e = rw e refl

  module _ (i : ℕ) (z : Seat) (base quote : ℕ) where
    unfoldable pub Left : World T → Type 0
    Left v = Paid base quote z (v.book.seats i)

    -- On the way: the tokens are ready, and the decimals are those of the header.
    module _ (h : Market) (Ready : T.State → Type 0) where
      abbrev Underway : World T → Type 0
      Underway v =
          Left v
          × (Ready v.tokens
              × ((v.book.header.base_decimals ≡ h.base_decimals)
                  × (v.book.header.quote_decimals ≡ h.quote_decimals)))

      bump-Runs : (w : World T) → Underway w → Runs (λ _ v. Underway v) (on_book T bump) w
      unfolding Left with_header bump_seq
      bump-Runs w p = Runs-ok _ w _ tt (on_book-ok bump tt _ w bumped) p
        where
          bumped : bump w.book ≡ ok (tt, with_header bump_seq w.book)
          bumped = unfold bump modify in refl

      push-Runs :
          (t : CheckedTransfer) (w : World T)
          → (s : T.State) × (Ready s × (T.invoke t w.tokens ≡ ok s))
          → Underway w
          → Runs (λ _ v. Underway v) (push T t) w
      unfolding push Left
      push-Runs t w (s, (r, e)) (p, (q, k)) =
          Runs-if (ltb 0 t.amount) _ (pure tt) w
            (λ _. Runs-ok _ w _ tt (transfer-ok t w s e) (p, (r, k)))
            λ _. Runs-pure tt w (p, (q, k))

-- Enough is there for the withdrawal, and more is covered.
module _ (T : TokenProgram) (a : VaultAccounts) (c : Custody T a.base_vault a.quote_vault)
    (d : WithdrawInstructionData) (w : World T) (p : Payable T a w.book.header w)
    (f : IsFunded a.owner d w.book) where
  abbrev seat : Seat
  seat = w.book.seats d.seat_index

  abbrev base : ℕ
  base = asked d.base_atoms seat.base_free

  abbrev quote : ℕ
  quote = asked d.quote_atoms seat.quote_free

  abbrev Midway : ℕ → ℕ → World T → Type 0
  Midway x y v =
      Underway T d.seat_index seat base quote w.book.header p.Ready v
      × Covers T a.base_vault a.quote_vault x y v

  debit-Runs :
      IsSolvent T a.base_vault a.quote_vault w
      → Runs
          (λ _ v. Midway (base + 0) (quote + 0) v)
          (on_book T (settle_seat d.seat_index (debit base quote)))
          w
  unfolding Left with_seat
  debit-Runs k =
      Runs-and (λ _ v. Covers T a.base_vault a.quote_vault (base + 0) (quote + 0) v) _ w
        (Runs-ok _ w _ tt
          (on_book-ok T _ tt _ w (
            settle_seat-ok d.seat_index _ w.book _ f.seat
              (debit-ok base quote seat f.base f.quote)))
          (
            subst (λ s. Paid base quote seat s)
                (sym (update_self w.book.seats d.seat_index (debited base quote seat)))
                (debited-Paid base quote seat f.base f.quote),
            (p.ready, (refl, refl)),
          ))
        (settle-Covers T a.base_vault a.quote_vault d.seat_index _ 0 0 _ _ w
          (debit-exact base quote) k)

  bumped-Runs :
      (v : World T)
      → Midway (base + 0) (quote + 0) v
      → Runs (λ _ u. Midway (base + 0) (quote + 0) u) (on_book T bump) v
  bumped-Runs v (l, k) =
      Runs-and (λ _ u. Covers T a.base_vault a.quote_vault (base + 0) (quote + 0) u) _ v
        (bump-Runs T d.seat_index seat base quote w.book.header p.Ready v l)
        (on_book-Covers T a.base_vault a.quote_vault bump _ _ v
          (bump-KeepsSound a.base_vault a.quote_vault) k)

  paid_base-Runs :
      (h : Market) (v : World T)
      → h.base_decimals ≡ w.book.header.base_decimals
      → Midway (base + 0) (quote + 0) v
      → Runs (λ _ u. Midway 0 (quote + 0) u) (push T (base_out h a base)) v
  paid_base-Runs h v e (l, k) =
      Runs-and (λ _ u. Covers T a.base_vault a.quote_vault 0 (quote + 0) u) _ v
        (push-Runs T d.seat_index seat base quote w.book.header p.Ready _ v
          (subst (λ t. (s : T.State) × (p.Ready s × (T.invoke t v.tokens ≡ ok s)))
            (sym (base_out-decimals h w.book.header a base e))
            (p.base base v.tokens (l.1.0) (omega (arith, k.base_funds))))
          l)
        (push_base T a.base_vault a.quote_vault c (base_out h a base) 0 (quote + 0) v
          (unfold base_out in refl) (unfold base_out in k))

  paid_quote-Runs :
      (h : Market) (v : World T)
      → h.quote_decimals ≡ w.book.header.quote_decimals
      → Midway 0 (quote + 0) v
      → Runs (λ _ u. Midway 0 0 u) (push T (quote_out h a quote)) v
  paid_quote-Runs h v e (l, k) =
      Runs-and (λ _ u. Covers T a.base_vault a.quote_vault 0 0 u) _ v
        (push-Runs T d.seat_index seat base quote w.book.header p.Ready _ v
          (subst (λ t. (s : T.State) × (p.Ready s × (T.invoke t v.tokens ≡ ok s)))
            (sym (quote_out-decimals h w.book.header a quote e))
            (p.quote quote v.tokens (l.1.0) (omega (arith, k.quote_funds))))
          l)
        (push_quote T a.base_vault a.quote_vault c (quote_out h a quote) 0 0 v
          (unfold quote_out in refl) (unfold quote_out in k))

  -- In a solvent world, for the owner of a seat below 128 whose free balances are at least what
  -- is asked for, and under token programs with the documented behaviour of a transfer that, with
  -- the decimals of the market's header, make these two transfers wherever their accounts are
  -- ready and the vault holds the amount, and leave the accounts ready, the `process` of
  -- `withdraw` succeeds; it takes exactly what is asked for from the seat, and leaves a solvent
  -- world.
  pub withdraw-Runs :
      IsSolvent T a.base_vault a.quote_vault w
      → Runs
          (λ _ v. Left T d.seat_index seat base quote v × IsSolvent T a.base_vault a.quote_vault v)
          (Withdraw.process T a d)
          w
  unfolding Withdraw.process
  withdraw-Runs k =
      Runs-bind (λ _ v. v ≡ w) _ _ w
        (Runs-ok _ w w tt
          (on_book-ok T (check_seat d.seat_index a.owner) tt w.book w
            (check_seat-owner d.seat_index a.owner w.book f.seat f.owned))
          refl)
        λ _ v e. rw e (
          Runs-bind (λ s v. (s ≡ seat) × (v ≡ w)) _ _ w
            (Runs-ok _ w w seat
              (on_book-ok T (seat_at d.seat_index) seat w.book w
                (seat_at-ok d.seat_index w.book f.seat))
              (refl, refl))
            λ s u (g, h).
              rw (g, h)
                (Runs-bind _ _ _ w (debit-Runs k) λ _ x l.
                  Runs-bind _ _ _ x (bumped-Runs x l) λ _ y m. Runs-gets _ _ y (
                    Runs-bind _ _ _ y (paid_base-Runs y.book.header y (m.0.1.1.0) m) λ _ z n.
                      Runs-weaken _ _ z (paid_quote-Runs y.book.header z (m.0.1.1.1) n)
                        λ _ _ o. (o.0.0, o.1))))
