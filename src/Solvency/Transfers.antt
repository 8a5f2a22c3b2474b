-- ===== src/Solvency/Transfers.antt =====
-- The transfers into the vaults and out of them, of program/src/seat and program/src/taker.
use solana_orderbook.Base.{ℕ, ◌+◌, ◌≤◌, ◌≡◌, ap, sym, subst, ◌∙◌, false, ltb, arith, u64_max}
use solana_orderbook.Exec.{ok, pure}
use solana_orderbook.Exec.Triples.{Yields, Yields-bind, Yields-if, Yields-lifted, Yields-pure}
use solana_orderbook.Ledger.{total_base}
use solana_orderbook.Runtime.{
  CheckedTransfer, TokenProgram, World, Custody, held, transfer, checked_delta, received,
}
use solana_orderbook.Instructions.VaultAccounts.{push}
use solana_orderbook.Solvency.Owing.{owed_quote}
use solana_orderbook.Solvency.Vaults.{Covers, Covers-less, Yields-transfer, Yields-amount_of}

module _ (T : TokenProgram) (base_vault quote_vault : ℕ)
    (c : Custody T base_vault quote_vault) where
  -- A transfer out of a vault takes from what is covered beyond the book.
  pub pay_base :
      (t : CheckedTransfer) (x y : ℕ) (w : World T)
      → t.from ≡ base_vault
      → Covers T base_vault quote_vault (t.amount + x) y w
      → Yields (λ _ v. Covers T base_vault quote_vault x y v) (transfer T t) w
  pay_base t x y w e k = Yields-transfer T t w λ s i. record {
    healthy = k.healthy;
    base_funds = omega (
      arith,
      k.base_funds,
      subst (λ (z : ℕ). held T z w.tokens ≤ held T z s + t.amount) e (c.debit t w.tokens s i),
    );
    quote_funds =
        omega
          (arith, k.quote_funds, c.others t w.tokens s quote_vault i λ p. c.apart (sym (p ∙ e)));
  }

  pub pay_quote :
      (t : CheckedTransfer) (x y : ℕ) (w : World T)
      → t.from ≡ quote_vault
      → Covers T base_vault quote_vault x (t.amount + y) w
      → Yields (λ _ v. Covers T base_vault quote_vault x y v) (transfer T t) w
  pay_quote t x y w e k = Yields-transfer T t w λ s i. record {
    healthy = k.healthy;
    base_funds =
        omega (arith, k.base_funds, c.others t w.tokens s base_vault i λ p. c.apart (p ∙ e));
    quote_funds = omega (
      arith,
      k.quote_funds,
      subst (λ (z : ℕ). held T z w.tokens ≤ held T z s + t.amount) e (c.debit t w.tokens s i),
    );
  }

  -- The same for a transfer that is skipped for nothing.
  pub push_base :
      (t : CheckedTransfer) (x y : ℕ) (w : World T)
      → t.from ≡ base_vault
      → Covers T base_vault quote_vault (t.amount + x) y w
      → Yields (λ _ v. Covers T base_vault quote_vault x y v) (push T t) w
  unfolding push
  push_base t x y w e k =
      Yields-if (ltb 0 t.amount) _ (pure tt) w (λ h. pay_base t x y w e k)
        λ h. Yields-pure tt w (
          Covers-less T base_vault quote_vault (t.amount + x) y x y w k (omega arith) (omega arith))

  pub push_quote :
      (t : CheckedTransfer) (x y : ℕ) (w : World T)
      → t.from ≡ quote_vault
      → Covers T base_vault quote_vault x (t.amount + y) w
      → Yields (λ _ v. Covers T base_vault quote_vault x y v) (push T t) w
  unfolding push
  push_quote t x y w e k =
      Yields-if (ltb 0 t.amount) _ (pure tt) w (λ h. pay_quote t x y w e k)
        λ h. Yields-pure tt w (
          Covers-less T base_vault quote_vault x (t.amount + y) x y w k (omega arith) (omega arith))

  -- A transfer that the vault authority has not signed takes from no vault.
  untouched :
      (t : CheckedTransfer) (w : World T) (s : T.State)
      → t.signed ≡ false
      → T.invoke t w.tokens ≡ ok s
      → (held T base_vault w.tokens ≤ held T base_vault s)
        × (held T quote_vault w.tokens ≤ held T quote_vault s)
  untouched t w s e i =
      let (p, q) = c.unsigned t w.tokens s i e in
      (
        c.others t w.tokens s base_vault i (λ h. p (sym h)),
        c.others t w.tokens s quote_vault i (λ h. q (sym h)),
      )

  checked_delta-exact :
      (pre post delta : ℕ) → checked_delta pre post ≡ ok delta → pre + delta ≡ post
  unfolding checked_delta
  checked_delta-exact pre post delta e = ground arith

  -- What the vault has received is covered beyond the book.
  pub receive_base :
      (t : CheckedTransfer) (y : ℕ) (w : World T)
      → t.signed ≡ false
      → t.to ≡ base_vault
      → Covers T base_vault quote_vault 0 y w
      → Yields
          (λ delta v. Covers T base_vault quote_vault delta y v × (delta ≤ u64_max))
          (received T t)
          w
  unfolding received
  receive_base t y w n e k =
      Yields-bind
        (λ pre v. Covers T base_vault quote_vault 0 y v × (pre ≡ held T base_vault v.tokens)) _ _ w
        (Yields-amount_of T t.to w (k, ap (λ (z : ℕ). held T z w.tokens) e))
        λ pre v (l, p).
          Yields-bind (λ _ u. Covers T base_vault quote_vault 0 y u × (total_base u.book ≤ pre))
            (transfer T t) _ v
            (Yields-transfer T t v λ s i.
              let (x, z) = untouched t v s n i in
              (
                record {
                  healthy = l.healthy;
                  base_funds = omega (arith, l.base_funds, x);
                  quote_funds = omega (arith, l.quote_funds, z);
                },
                omega (arith, l.base_funds, p),
              ))
            λ _ u (m, q).
              Yields-bind
                (λ post u.
                  Covers T base_vault quote_vault 0 y u
                  × ((total_base u.book ≤ pre) × (post ≡ held T base_vault u.tokens)))
                _ _ u (Yields-amount_of T t.to u (m, (q, ap (λ (z : ℕ). held T z u.tokens) e)))
                λ post o (f, (g, h)). Yields-lifted (checked_delta pre post) o λ delta d. (
                  record {
                    healthy = f.healthy;
                    base_funds = omega (arith, checked_delta-exact pre post delta d, g, h);
                    quote_funds = f.quote_funds;
                  },
                  omega (
                    arith,
                    checked_delta-exact pre post delta d,
                    h,
                    c.eight_bytes base_vault o.tokens,
                  ),
                )

  pub receive_quote :
      (t : CheckedTransfer) (x : ℕ) (w : World T)
      → t.signed ≡ false
      → t.to ≡ quote_vault
      → Covers T base_vault quote_vault x 0 w
      → Yields
          (λ delta v. Covers T base_vault quote_vault x delta v × (delta ≤ u64_max))
          (received T t)
          w
  unfolding received
  receive_quote t x w n e k =
      Yields-bind
        (λ pre v. Covers T base_vault quote_vault x 0 v × (pre ≡ held T quote_vault v.tokens)) _ _ w
        (Yields-amount_of T t.to w (k, ap (λ (z : ℕ). held T z w.tokens) e))
        λ pre v (l, p).
          Yields-bind (λ _ u. Covers T base_vault quote_vault x 0 u × (owed_quote u.book ≤ pre))
            (transfer T t) _ v
            (Yields-transfer T t v λ s i.
              let (y, z) = untouched t v s n i in
              (
                record {
                  healthy = l.healthy;
                  base_funds = omega (arith, l.base_funds, y);
                  quote_funds = omega (arith, l.quote_funds, z);
                },
                omega (arith, l.quote_funds, p),
              ))
            λ _ u (m, q).
              Yields-bind
                (λ post u.
                  Covers T base_vault quote_vault x 0 u
                  × ((owed_quote u.book ≤ pre) × (post ≡ held T quote_vault u.tokens)))
                _ _ u (Yields-amount_of T t.to u (m, (q, ap (λ (z : ℕ). held T z u.tokens) e)))
                λ post o (f, (g, h)). Yields-lifted (checked_delta pre post) o λ delta d. (
                  record {
                    healthy = f.healthy;
                    base_funds = f.base_funds;
                    quote_funds = omega (arith, checked_delta-exact pre post delta d, g, h);
                  },
                  omega (
                    arith,
                    checked_delta-exact pre post delta d,
                    h,
                    c.eight_bytes quote_vault o.tokens,
                  ),
                )
