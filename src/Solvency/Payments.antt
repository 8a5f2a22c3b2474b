-- ===== src/Solvency/Payments.antt =====
-- The instructions that move tokens leave the vaults with what the book owes: deposits, withdrawals
-- and the collection of fees, in program/src/seat and program/src/admin.
use solana_orderbook.Base.{ℕ, ◌+◌, ◌≤◌, ◌≡◌, refl, false, ltb, arith}
use solana_orderbook.Exec.{ok, pure, modify}
use solana_orderbook.Exec.Keeps.{Keeps}
use solana_orderbook.Exec.Triples.{Yields, Yields-bind, Yields-gets, Yields-if, Yields-pure}
use solana_orderbook.State.Header.{clear_fees_accrued}
use solana_orderbook.State.Seats.{Seat}
use solana_orderbook.Book.{with_header, seat_at}
use solana_orderbook.Book.Frame.{seat_at-Keeps}
use solana_orderbook.Ledger.{base_of, quote_of, total_base, total_quote}
use solana_orderbook.Ledger.Matching.{matching}
use solana_orderbook.Runtime.{CheckedTransfer, TokenProgram, World, Custody, on_book, received}
use solana_orderbook.Instructions.{bump}
use solana_orderbook.Instructions.Deposit
use solana_orderbook.Instructions.Withdraw
use solana_orderbook.Instructions.CollectFees
use solana_orderbook.Instructions.VaultAccounts.{VaultAccounts, base_out, quote_out}
use solana_orderbook.Solvency.Owing.{
  bump-KeepsSound, matching-KeepsSound, owed_quote, relisted, sound,
}
use solana_orderbook.Solvency.Makers.{check_seat-KeepsSound}
use solana_orderbook.Solvency.Vaults.{
  Covers, Covers-less, Yields-on_book, on_book-Covers, settle-Covers,
}
use solana_orderbook.Solvency.Transfers.{
  pay_quote, push_base, push_quote, receive_base, receive_quote,
}

credit_base-exact :
    (delta : ℕ) (s t : Seat)
    → Deposit.credit_base delta s ≡ ok t
    → (base_of t + 0 ≤ base_of s + delta) × (quote_of t + 0 ≤ quote_of s + 0)
unfolding Deposit.credit_base
credit_base-exact delta s t e = (ground arith, ground arith)

credit_quote-exact :
    (delta : ℕ) (s t : Seat)
    → Deposit.credit_quote delta s ≡ ok t
    → (base_of t + 0 ≤ base_of s + 0) × (quote_of t + 0 ≤ quote_of s + delta)
unfolding Deposit.credit_quote
credit_quote-exact delta s t e = (ground arith, ground arith)

pub debit-exact :
    (base quote : ℕ) (s t : Seat)
    → Withdraw.debit base quote s ≡ ok t
    → (base_of t + (base + 0) ≤ base_of s + 0) × (quote_of t + (quote + 0) ≤ quote_of s + 0)
unfolding Withdraw.debit
debit-exact base quote s t e = (ground arith, ground arith)

module _ (T : TokenProgram) (base_vault quote_vault : ℕ)
    (c : Custody T base_vault quote_vault) where
  abbrev Solvent : World T → Type 0
  Solvent w = Covers T base_vault quote_vault 0 0 w

  bump-Covers :
      (x y : ℕ) (w : World T)
      → Covers T base_vault quote_vault x y w
      → Yields (λ _ v. Covers T base_vault quote_vault x y v) (on_book T bump) w
  bump-Covers x y w =
      on_book-Covers T base_vault quote_vault bump x y w (bump-KeepsSound base_vault quote_vault)

  pull_base-Yields :
      (i : ℕ) (t : CheckedTransfer) (w : World T)
      → t.signed ≡ false
      → t.to ≡ base_vault
      → Solvent w
      → Yields (λ _ v. Solvent v) (Deposit.pull T Deposit.credit_base i t) w
  unfolding Deposit.pull
  pull_base-Yields i t w n e k =
      Yields-if (ltb 0 t.amount) _ (pure tt) w
        (λ _.
          Yields-bind _ (received T t) _ w (receive_base T base_vault quote_vault c t 0 w n e k)
            λ delta v (l, small).
              settle-Covers T base_vault quote_vault i (Deposit.credit_base delta) delta 0 0 0 v
                (credit_base-exact delta) l)
        λ _. Yields-pure tt w k

  pull_quote-Yields :
      (i : ℕ) (t : CheckedTransfer) (w : World T)
      → t.signed ≡ false
      → t.to ≡ quote_vault
      → Solvent w
      → Yields (λ _ v. Solvent v) (Deposit.pull T Deposit.credit_quote i t) w
  unfolding Deposit.pull
  pull_quote-Yields i t w n e k =
      Yields-if (ltb 0 t.amount) _ (pure tt) w
        (λ _.
          Yields-bind _ (received T t) _ w (receive_quote T base_vault quote_vault c t 0 w n e k)
            λ delta v (l, small).
              settle-Covers T base_vault quote_vault i (Deposit.credit_quote delta) 0 delta 0 0 v
                (credit_quote-exact delta) l)
        λ _. Yields-pure tt w k

  pub deposit-Yields :
      (a : Deposit.DepositAccounts) (d : Deposit.DepositInstructionData) (w : World T)
      → a.base_vault ≡ base_vault
      → a.quote_vault ≡ quote_vault
      → Solvent w
      → Yields (λ _ v. Solvent v) (Deposit.process T a d) w
  unfolding Deposit.process Deposit.base_leg Deposit.quote_leg
  deposit-Yields a d w p q k =
      Yields-bind (λ _ v. Solvent v) _ _ w
        (on_book-Covers T base_vault quote_vault _ 0 0 w
          (check_seat-KeepsSound base_vault quote_vault _ _) k)
        λ _ v l. Yields-gets _ _ v (
          Yields-bind (λ _ u. Solvent u) _ _ v (pull_base-Yields _ _ v refl p l)
            λ _ u m.
              Yields-bind (λ _ u. Solvent u) _ _ u (pull_quote-Yields _ _ u refl q m)
                λ _ o n. bump-Covers 0 0 o n)

  seat_at-KeepsSound : (i : ℕ) → Keeps (sound base_vault quote_vault) (seat_at i)
  seat_at-KeepsSound i = matching-KeepsSound base_vault quote_vault _ (seat_at-Keeps matching i)

  pub withdraw-Yields :
      (a : VaultAccounts) (d : Withdraw.WithdrawInstructionData) (w : World T)
      → a.base_vault ≡ base_vault
      → a.quote_vault ≡ quote_vault
      → Solvent w
      → Yields (λ _ v. Solvent v) (Withdraw.process T a d) w
  unfolding Withdraw.process base_out quote_out
  withdraw-Yields a d w p q k =
      Yields-bind (λ _ v. Solvent v) _ _ w
        (on_book-Covers T base_vault quote_vault _ 0 0 w
          (check_seat-KeepsSound base_vault quote_vault _ _) k)
        λ _ v l.
          Yields-bind (λ _ v. Solvent v) _ _ v
            (on_book-Covers T base_vault quote_vault _ 0 0 v (seat_at-KeepsSound d.seat_index) l)
            λ s u m.
              Yields-bind _ _ _ u
                (settle-Covers T base_vault quote_vault _ _ 0 0 _ _ u (debit-exact _ _) m)
                λ _ o n. Yields-bind _ _ _ o (bump-Covers _ _ o n) λ _ x f. Yields-gets _ _ x (
                  Yields-bind _ _ _ x (push_base T base_vault quote_vault c _ 0 _ x p f)
                    λ _ y g. push_quote T base_vault quote_vault c _ 0 0 y q g)

  clear-Covers :
      (w : World T)
      → Solvent w
      → Covers T base_vault quote_vault 0 w.book.header.fees_accrued_quote
          (record w { book = with_header clear_fees_accrued w.book })
  unfolding with_header clear_fees_accrued owed_quote total_base total_quote
  clear-Covers w k = record {
    healthy =
        relisted base_vault quote_vault w.book _ refl k.healthy.bounded.window k.healthy.aligned
          (record { bids = k.healthy.indexed.bids; asks = k.healthy.indexed.asks }) k.healthy;
    base_funds = k.base_funds;
    quote_funds = omega (arith, k.quote_funds);
  }

  pub collect_fees-Yields :
      (a : CollectFees.CollectFeesAccounts) (w : World T)
      → a.quote_vault ≡ quote_vault
      → Solvent w
      → Yields (λ _ v. Solvent v) (CollectFees.process T a) w
  unfolding CollectFees.process CollectFees.fee_transfer modify
  collect_fees-Yields a w q k =
      let fees : ℕ = w.book.header.fees_accrued_quote in
      Yields-gets (λ w. w.book.header) _ w
        (Yields-bind (λ _ v. Covers T base_vault quote_vault 0 fees v) _ _ w
          (Yields-on_book T (λ _ t. t ≡ with_header clear_fees_accrued w.book) _ w
            (record { outcome = refl }) λ _ t e. rw e (clear-Covers w k))
          λ _ v l. Yields-bind _ _ _ v (bump-Covers 0 fees v l) λ _ u m.
            Yields-if (ltb 0 fees) _ (pure tt) u
              (λ h. pay_quote T base_vault quote_vault c _ 0 0 u q (
                Covers-less T base_vault quote_vault 0 fees 0 (fees + 0) u m (omega arith)
                  (omega arith)))
              λ h.
                Yields-pure tt u
                  (Covers-less T base_vault quote_vault 0 fees 0 0 u m (omega arith) (omega arith)))
