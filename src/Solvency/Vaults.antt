-- ===== src/Solvency/Vaults.antt =====
-- The funds in the vaults, over the steps of the handlers of program/src that move tokens.
use solana_orderbook.Base.{ℕ, ◌+◌, ◌≤◌, ◌≡◌, refl, inl, inr, Bool-cases, ltb, arith}
use solana_orderbook.Base.Bytes.{length}
use solana_orderbook.Exec.{Result, ok, err}
use solana_orderbook.Exec.Keeps.{Post, Keeps}
use solana_orderbook.Exec.Triples.{Yields}
use solana_orderbook.State.Seats.{Seat}
use solana_orderbook.Book.{Book, M, settle_seat}
use solana_orderbook.Ledger.{
  base_of, quote_of, total_base, total_base-with_seat, total_quote-with_seat,
}
use solana_orderbook.Ledger.Settle.{Post-settle_seat}
use solana_orderbook.Runtime.{
  CheckedTransfer, TokenProgram, World, held, on_book, put_book, transfer, put_tokens, token_amount,
  amount_of, read_amount,
}
use solana_orderbook.Solvency.Owing.{
  Healthy, Sound, sound, owed_quote, sound-Yields, with_seat-Healthy, same_fees,
}

module _ (T : TokenProgram) where
  put_book-Post :
      {A : Type 0} (R : A → World T → Type 0) (Q : A → Book → Type 0) (w : World T)
      (r : Result (A × Book))
      → Post Q r
      → ((a : A) (t : Book) → Q a t → R a (record w { book = t }))
      → Post R (put_book T w r)
  unfolding put_book
  put_book-Post R Q w (ok (a, t)) p k = k a t p
  put_book-Post R Q w (err e) p k = tt

  pub Yields-on_book :
      {A : Type 0} {R : A → World T → Type 0} (Q : A → Book → Type 0) (m : M A) (w : World T)
      → Yields Q m w.book
      → ((a : A) (t : Book) → Q a t → R a (record w { book = t }))
      → Yields R (on_book T m) w
  unfolding on_book
  Yields-on_book {R = R} Q m w y k = record { outcome = put_book-Post R Q w (m w.book) y.outcome k }

  put_tokens-Post :
      (R : Unit {0} → World T → Type 0) (w : World T) (r : Result T.State)
      → ((s : T.State) → r ≡ ok s → R tt (record w { tokens = s }))
      → Post R (put_tokens T w r)
  unfolding put_tokens
  put_tokens-Post R w (ok s) k = k s refl
  put_tokens-Post R w (err e) k = tt

  pub Yields-transfer :
      {R : Unit {0} → World T → Type 0} (t : CheckedTransfer) (w : World T)
      → ((s : T.State) → T.invoke t w.tokens ≡ ok s → R tt (record w { tokens = s }))
      → Yields R (transfer T t) w
  unfolding transfer
  Yields-transfer {R = R} t w k = record { outcome = put_tokens-Post R w (T.invoke t w.tokens) k }

  pub Yields-amount_of :
      {R : ℕ → World T → Type 0} (key : ℕ) (w : World T)
      → R (held T key w.tokens) w
      → Yields R (amount_of T key) w
  unfolding amount_of read_amount token_amount
  Yields-amount_of key w r = record {
    outcome = elim (Bool-cases (ltb (length (T.data_of key w.tokens)) 72)) [
      | inl e ↦ rw e tt
      | inr e ↦ rw e r
    ];
  }

module _ (T : TokenProgram) (base_vault quote_vault : ℕ) where
  -- The vaults hold what the book owes, and as much again as this.
  pub record Covers (base quote : ℕ) (w : World T) : Type 0 where
    pub healthy : Healthy base_vault quote_vault w.book
    pub base_funds : total_base w.book + base ≤ held T base_vault w.tokens
    pub quote_funds : owed_quote w.book + quote ≤ held T quote_vault w.tokens

  pub Covers-less : (x y x' y' : ℕ) (w : World T) → Covers x y w → x' ≤ x → y' ≤ y → Covers x' y' w
  Covers-less x y x' y' w c p q = record {
    healthy = c.healthy;
    base_funds = omega (arith, c.base_funds, p);
    quote_funds = omega (arith, c.quote_funds, q);
  }

  -- A sound operation of the book.
  pub on_book-Covers :
      {A : Type 0} (m : M A) (x y : ℕ) (w : World T)
      → Keeps (sound base_vault quote_vault) m
      → Covers x y w
      → Yields (λ _ v. Covers x y v) (on_book T m) w
  on_book-Covers m x y w k c =
      Yields-on_book T (λ _ t. Sound base_vault quote_vault w.book t) m w
        (sound-Yields base_vault quote_vault m w.book k c.healthy)
        λ _ t s. record {
          healthy = s.healthy;
          base_funds = omega (arith, c.base_funds, s.base);
          quote_funds = omega (arith, c.quote_funds, s.quote);
        }

  -- One seat's balances change against what is covered beyond the book.
  pub settle-Covers :
      (i : ℕ) (f : Seat → Result Seat) (x y x' y' : ℕ) (w : World T)
      → ((s t : Seat)
          → f s ≡ ok t
          → (base_of t + x' ≤ base_of s + x) × (quote_of t + y' ≤ quote_of s + y))
      → Covers x y w
      → Yields (λ _ v. Covers x' y' v) (on_book T (settle_seat i f)) w
  unfolding owed_quote
  settle-Covers i f x y x' y' w k c =
      Yields-on_book T (λ _ t. Covers x' y' (record w { book = t })) _ w
        (record {
          outcome =
              Post-settle_seat (λ t. Covers x' y' (record w { book = t })) i f w.book
                λ s small e.
                  let (p, q) = k (w.book.seats i) s e in
                  record {
                    healthy = with_seat-Healthy base_vault quote_vault i s w.book c.healthy;
                    base_funds =
                        omega (arith, c.base_funds, p, total_base-with_seat i s w.book small);
                    quote_funds = omega (
                      arith,
                      c.quote_funds,
                      q,
                      total_quote-with_seat i s w.book small,
                      same_fees base_vault quote_vault i s w.book,
                    );
                  };
        })
        λ _ t d. d
