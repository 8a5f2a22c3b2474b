-- ===== src/Solvency/Swaps.antt =====
-- A swap of program/src/taker/swap.rs leaves the vaults with what the book owes.
use native.Mathlib.Nat.{div-mul-le_self, mul-le-mul_right}
use solana_orderbook.Base.{
  ℕ, ◌+◌, ◌*◌, ◌/◌, ◌≤◌, ◌≡◌, refl, ap, inl, inr, ltb, ◌==◌, min, arith, u64_max, add64, sub64,
  mul64,
}
use solana_orderbook.Exec.{gets, modify}
use solana_orderbook.Exec.Triples.{
  Yields, Yields-bind, Yields-gets, Yields-if, Yields-fail, Yields-raise, Yields-pure,
  Yields-weaken,
}
use solana_orderbook.State.{Side, bid, ask, opposite, TakeResult, no_lots}
use solana_orderbook.State.Header.{Market, base_atoms, bump_seq}
use solana_orderbook.Book.{Book, with_header}
use solana_orderbook.Ledger.Taking.{Trade, take-Yields}
use solana_orderbook.Runtime.{TokenProgram, World, Custody, on_book}
use solana_orderbook.Instructions.{bump}
use solana_orderbook.Instructions.Swap
use solana_orderbook.Instructions.Swap.{bid_params, ask_params, lots_of, sell, base_atoms_of}
use solana_orderbook.Instructions.VaultAccounts.{VaultAccounts, base_out, quote_out}
use solana_orderbook.Solvency.Owing.{Sound, bump-KeepsSound, sound-Yields, owed_quote}
use solana_orderbook.Solvency.Takers.{Trade-IsPriced, Trade-Healthy, Trade-base}
use solana_orderbook.Solvency.Vaults.{Covers, Covers-less, Yields-on_book}
use solana_orderbook.Solvency.Transfers.{
  pay_base, pay_quote, push_base, push_quote, receive_base, receive_quote,
}

module _ (T : TokenProgram) (base_vault quote_vault : ℕ) where
  abbrev Holds : ℕ → ℕ → World T → Type 0
  Holds = Covers T base_vault quote_vault

  kept :
      (delta : ℕ) (w : World T)
      → delta ≤ u64_max
      → sub64 delta (base_atoms w.book.header 0) + 0 ≤ delta
  unfolding sub64 base_atoms mul64
  kept delta w small = omega arith

  zero64 : sub64 0 0 ≡ 0
  unfolding sub64
  zero64 = refl

  -- What the quote atoms have bought, and what is left of them.
  bought :
      (d : Swap.SwapInstructionData) (slot most delta : ℕ) (res : TakeResult) (w : World T)
      (t : Book)
      → delta ≤ u64_max
      → Holds 0 delta w
      → Trade w.book (bid_params d slot most delta) res t
      → Holds
          (base_atoms t.header res.lots + 0)
          (sub64 delta (add64 res.quote res.fee) + 0)
          (record w { book = t })
  unfolding owed_quote add64 sub64 opposite bid_params
  bought d slot most delta res w t small k m =
      let p = Trade-IsPriced base_vault quote_vault w.book k.healthy _ res t m in
      let enough : res.quote + res.fee ≤ delta = elim m.budget [
        | inl e ↦ omega (arith, e, p.fits)
        | inr l ↦ l
      ] in
      let (g, q) = m.settled in
      record {
        healthy = Trade-Healthy base_vault quote_vault w.book k.healthy _ res t m;
        base_funds = omega (
          arith,
          k.base_funds,
          g.le,
          Trade-base base_vault quote_vault w.book k.healthy _ res t m,
        );
        quote_funds = omega (arith, k.quote_funds, q.le, m.fees, enough, p.fits, small);
      }

  -- What the base atoms have been sold for, and what is left of them.
  sold :
      (d : Swap.SwapInstructionData) (slot most delta : ℕ) (res : TakeResult) (w : World T)
      (t : Book)
      → delta ≤ u64_max
      → most * w.book.header.base_lot_size ≤ delta
      → Holds delta 0 w
      → Trade w.book (ask_params d slot most) res t
      → Holds
          (sub64 delta (base_atoms t.header res.lots) + 0)
          (sub64 res.quote res.fee + 0)
          (record w { book = t })
  unfolding owed_quote add64 sub64 opposite ask_params
  sold d slot most delta res w t small enough k m =
      let p = Trade-IsPriced base_vault quote_vault w.book k.healthy _ res t m in
      let (g, q) = m.settled in
      record {
        healthy = Trade-Healthy base_vault quote_vault w.book k.healthy _ res t m;
        base_funds = omega (
          arith,
          k.base_funds,
          g.le,
          Trade-base base_vault quote_vault w.book k.healthy _ res t m,
          enough,
          small,
          mul-le-mul_right w.book.header.base_lot_size m.size,
        );
        quote_funds = omega (arith, k.quote_funds, q.le, m.fees, p.part, p.fits);
      }

  -- A bump of the sequence number, after which the base of the lots is read.
  bump_base :
      (n y : ℕ) (f : ℕ → ℕ) (w : World T)
      → Holds (f (base_atoms w.book.header n)) y w
      → Yields (λ _ v. Holds (f (base_atoms v.book.header n)) y v) (on_book T bump) w
  unfolding bump modify with_header bump_seq base_atoms
  bump_base n y f w k =
      Yields-on_book T
        (λ _ t.
          Sound base_vault quote_vault w.book t
          × (base_atoms t.header n ≡ base_atoms w.book.header n))
        bump w
        (record {
          outcome = (
            (sound-Yields base_vault quote_vault bump w.book
                (bump-KeepsSound base_vault quote_vault) k.healthy).outcome,
            refl,
          );
        })
        λ _ t (s, e). record {
          healthy = s.healthy;
          base_funds = omega (arith, k.base_funds, s.base, ap f e);
          quote_funds = omega (arith, k.quote_funds, s.quote);
        }

  read_base :
      (n y : ℕ) (f : ℕ → ℕ) (w : World T)
      → Holds (f (base_atoms w.book.header n)) y w
      → Yields (λ base v. Holds (f base) y v) (on_book T (base_atoms_of n)) w
  unfolding base_atoms_of gets
  read_base n y f w k =
      Yields-on_book T (λ x t. Holds (f x) y (record w { book = t })) _ w (record { outcome = k })
        λ x t l. l

  -- As many lots as the amount makes, at most those of an order.
  lots-fit : (delta lot most : ℕ) → min (delta / lot) most * lot ≤ delta
  lots-fit delta lot most =
      let few : min (delta / lot) most ≤ delta / lot = omega arith in
      omega (arith, div-mul-le_self delta lot, mul-le-mul_right lot few)

  lots_of-Yields :
      (delta y : ℕ) (w : World T)
      → Holds delta y w
      → Yields
          (λ n v. Holds delta y v × (n * v.book.header.base_lot_size ≤ delta))
          (on_book T (lots_of delta))
          w
  unfolding lots_of
  lots_of-Yields delta y w k =
      Yields-on_book T
        (λ n t. Holds delta y (record w { book = t }) × (n * t.header.base_lot_size ≤ delta)) _ w
        (Yields-gets (λ b. b.header) _ w.book
          (Yields-if (w.book.header.base_lot_size == 0) _ _ w.book (λ _. Yields-raise _ w.book)
            λ _.
              Yields-pure _ w.book
                (k, lots-fit delta w.book.header.base_lot_size w.book.header.max_lots_per_order)))
        λ n t l. l

  Sold : ℕ → TakeResult → World T → Type 0
  Sold delta res u =
      Holds (sub64 delta (base_atoms u.book.header res.lots) + 0) (sub64 res.quote res.fee + 0) u

  sell-Yields :
      (d : Swap.SwapInstructionData) (budget slot most delta : ℕ) (w : World T)
      → delta ≤ u64_max
      → most * w.book.header.base_lot_size ≤ delta
      → Holds delta 0 w
      → Yields (Sold delta) (on_book T (sell budget d slot most)) w
  unfolding sell Sold ask_params
  sell-Yields d budget slot most delta w small enough k =
      Yields-on_book T (λ res t. Sold delta res (record w { book = t })) _ w
        (Yields-if (most == 0) _ _ w.book (λ _. Yields-pure no_lots w.book nothing)
          λ _.
            Yields-weaken (λ res t. Trade w.book _ res t) _ w.book
              (take-Yields w.book _ k.healthy.bounded budget k.healthy.indexed (omega arith))
              λ res t m. sold d slot most delta res w t small enough k m)
        λ res t l. l
    where
      nothing : Holds (sub64 delta (base_atoms w.book.header 0) + 0) (sub64 0 0 + 0) w
      nothing =
          Covers-less T base_vault quote_vault delta 0 _ _ w k (kept delta w small)
            (omega (arith, zero64))

  module _ (c : Custody T base_vault quote_vault) (budget slot : ℕ) (h : Market) (a : VaultAccounts)
      (d : Swap.SwapInstructionData) (at_base : a.base_vault ≡ base_vault)
      (at_quote : a.quote_vault ≡ quote_vault) where
    buy_base-Yields :
        (w : World T)
        → Holds 0 0 w
        → Yields (λ _ v. Holds 0 0 v) (Swap.buy_base T budget slot h a d) w
    unfolding Swap.buy_base Swap.quote_in base_out quote_out bid_params
    buy_base-Yields w k =
        Yields-bind (λ delta v. Holds 0 delta v × (delta ≤ u64_max)) _ _ w
          (receive_quote T base_vault quote_vault c _ 0 w refl at_quote k)
          λ delta v (l, small).
            Yields-bind
              (λ res u.
                Holds (base_atoms u.book.header res.lots + 0)
                  (sub64 delta (add64 res.quote res.fee) + 0) u)
              _ _ v
              (Yields-on_book T (λ res t. Trade v.book _ res t) _ v
                (take-Yields v.book _ l.healthy.bounded budget l.healthy.indexed small)
                λ res t m. bought d slot h.max_lots_per_order delta res v t small l m)
              λ res u m. Yields-bind _ _ _ u (bump_base res.lots _ (λ x. x + 0) u m) λ _ o n.
                Yields-bind
                  (λ base x. Holds (base + 0) (sub64 delta (add64 res.quote res.fee) + 0) x) _ _ o
                  (read_base res.lots _ (λ x. x + 0) o n)
                  λ base x f.
                    Yields-bind
                      (λ _ y. Holds (base + 0) (sub64 delta (add64 res.quote res.fee) + 0) y) _ _ x
                      (Yields-if (ltb base d.min_out) _ _ x (λ _. Yields-fail _ x)
                        λ _. Yields-pure tt x f)
                      λ _ y g.
                        Yields-bind (λ _ z. Holds (base + 0) 0 z) _ _ y
                          (push_quote T base_vault quote_vault c _ _ 0 y at_quote g)
                          λ _ z p. pay_base T base_vault quote_vault c _ 0 0 z at_base p

    sell_base-Yields :
        (w : World T)
        → Holds 0 0 w
        → Yields (λ _ v. Holds 0 0 v) (Swap.sell_base T budget slot h a d) w
    unfolding Swap.sell_base Swap.base_in base_out quote_out Sold
    sell_base-Yields w k =
        Yields-bind (λ delta v. Holds delta 0 v × (delta ≤ u64_max)) _ _ w
          (receive_base T base_vault quote_vault c _ 0 w refl at_base k)
          λ delta v (l, small).
            Yields-bind (λ n u. Holds delta 0 u × (n * u.book.header.base_lot_size ≤ delta)) _ _ v
              (lots_of-Yields delta 0 v l)
              λ n u (m, enough).
                Yields-bind (Sold delta) _ _ u (sell-Yields d budget slot n delta u small enough m)
                  λ res o f.
                    Yields-bind _ _ _ o (bump_base res.lots _ (λ x. sub64 delta x + 0) o f) λ _ x g.
                      Yields-bind (λ _ y. Sold delta res y) _ _ x
                        (Yields-if (ltb (sub64 res.quote res.fee) d.min_out) _ _ x
                          (λ _. Yields-fail _ x) λ _. Yields-pure tt x g)
                        λ _ y p.
                          Yields-bind
                            (λ base z. Holds (sub64 delta base + 0) (sub64 res.quote res.fee + 0) z)
                            _ _ y (read_base res.lots _ (λ x. sub64 delta x + 0) y p)
                            λ base z q.
                              Yields-bind (λ _ z. Holds 0 (sub64 res.quote res.fee + 0) z) _ _ z
                                (push_base T base_vault quote_vault c _ 0 _ z at_base q)
                                λ _ i r. pay_quote T base_vault quote_vault c _ 0 0 i at_quote r

  pub swap-Yields :
      (c : Custody T base_vault quote_vault) (budget slot : ℕ) (a : VaultAccounts)
      (d : Swap.SwapInstructionData) (w : World T)
      → a.base_vault ≡ base_vault
      → a.quote_vault ≡ quote_vault
      → Holds 0 0 w
      → Yields (λ _ v. Holds 0 0 v) (Swap.process T budget slot a d) w
  unfolding Swap.process Swap.by_side
  swap-Yields c budget slot a d w p q k = Yields-gets _ _ w (by_side d.side)
    where
      by_side :
          (s : Side)
          → Yields
              (λ _ v. Holds 0 0 v)
              (Swap.by_side
                (Swap.buy_base T budget slot w.book.header a d)
                (Swap.sell_base T budget slot w.book.header a d)
                s)
              w
      by_side bid = buy_base-Yields c budget slot w.book.header a d p q w k
      by_side ask = sell_base-Yields c budget slot w.book.header a d p q w k
