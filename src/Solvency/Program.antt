-- ===== src/Solvency/Program.antt =====
-- `process_instruction` of program/src/lib.rs leaves the vaults with what the book owes.
use solana_orderbook.Base.{ℕ, ◌≡◌, ◌∙◌, List, [], ◌∷◌, ◌==◌, arith}
use solana_orderbook.Exec.{Exec, Result, ok, modify}
use solana_orderbook.Exec.Keeps.{
  Post-ok, Post-imp, Preorder, Keeps, Keeps-if, Keeps-raise, Keeps-fail, Keeps-pure, Keeps-lift,
  Keeps-bind, Keeps-modify, keeps_rules,
}
use solana_orderbook.Exec.Triples.{Yields, Yields-gets, Yields-lift}
use solana_orderbook.State.Header.{Config}
use solana_orderbook.Book.{M}
use solana_orderbook.Runtime.{TokenProgram, World, Custody, on_book}
use solana_orderbook.Runtime.Accounts.{AccountInfo, ProgramIds}
use solana_orderbook.Runtime.Programs.{Runtime}
use solana_orderbook.Instructions.{by_owner}
use solana_orderbook.Instructions.Dispatch.{
  with_data, makers, payments, upkeep, listings, process_instruction,
}
use solana_orderbook.Instructions.UpdateConfig
use solana_orderbook.Instructions.CreateConfig
use solana_orderbook.Solvency.Owing.{sound}
use solana_orderbook.Solvency.Makers.{
  cancel-KeepsSound, mass_quote-KeepsSound, reap_expired_process-KeepsSound, close_seat-KeepsSound,
  reanchor-KeepsSound, claim_seat-KeepsSound, update_fee-KeepsSound,
}
use solana_orderbook.Solvency.Takers.{place_limit-KeepsSound, place_take-KeepsSound}
use solana_orderbook.Solvency.Vaults.{Covers, on_book-Covers}
use solana_orderbook.Solvency.Payments.{deposit-Yields, withdraw-Yields, collect_fees-Yields}
use solana_orderbook.Solvency.Swaps.{swap-Yields}
use solana_orderbook.Solvency.Guards.{deposit-At, vaults-At, collect_fees-At, create_market-version}

module _ (T : TokenProgram) (base_vault quote_vault : ℕ) where
  -- The vaults hold what the market owes: its book is healthy, and the balances of the seats, free and
  -- locked, and the fees not yet collected, are at most what the vaults hold.
  abbrev pub IsSolvent : World T → Type 0
  IsSolvent w = Covers T base_vault quote_vault 0 0 w

  unfoldable pub solvent : Preorder (World T)
  solvent = record {
    Rel = λ w v. IsSolvent w → IsSolvent v;
    rel_refl = λ w k. k;
    rel_trans = λ w v u p q k. q (p k);
  }

  on_book-Keeps :
      {A : Type 0} (m : M A) → Keeps (sound base_vault quote_vault) m → Keeps solvent (on_book T m)
  unfolding solvent
  on_book-Keeps m k = record {
    holds = λ w.
        Post-imp (IsSolvent w) _ (on_book T m w)
          λ s. (on_book-Covers T base_vault quote_vault m 0 0 w k s).outcome;
  }

  by_owner-Keeps :
      {D : Type 0} (read : List ℕ → Result D) (process : ℕ → D → M (Unit {0})) (ids : ProgramIds)
      (accounts : List AccountInfo) (bytes : List ℕ)
      → ((owner : ℕ) (d : D) → Keeps (sound base_vault quote_vault) (process owner d))
      → Keeps solvent (on_book T (by_owner read process ids accounts bytes))
  unfolding by_owner
  by_owner-Keeps read process ids accounts bytes k =
      on_book-Keeps _ (search (keeps_rules, k) depth 8)

  -- The configs are no part of it.
  configs-Keeps :
      (f : World T → ℕ → Config) → Keeps solvent (modify λ w. record w { configs = f w })
  unfolding solvent
  configs-Keeps f =
      Keeps-modify _ λ w s. record {
        healthy = s.healthy;
        base_funds = s.base_funds;
        quote_funds = s.quote_funds;
      }

  module _ (r : Runtime) (accounts : List AccountInfo) where
    with_data-Keeps :
        {A D : Type 0} (check : World T → Result A) (bytes : Result D)
        (process : A → D → Exec (World T) (Unit {0}))
        → ((w : World T) (a : A) (d : D)
            → check w ≡ ok a
            → IsSolvent w
            → Yields (λ _ v. IsSolvent v) (process a d) w)
        → Keeps solvent (with_data T r accounts check bytes process)
    unfolding with_data solvent
    with_data-Keeps check bytes process k = record {
      holds = λ w. Post-imp (IsSolvent w) _ (with_data T r accounts check bytes process w) λ s.
          (Yields-gets {R = λ _ v. IsSolvent v} check _ w
            (Yields-lift (check w) _ w λ a e. Yields-lift bytes _ w λ d _. k w a d e s)).outcome;
    }

    -- The same where the check does not matter.
    any_data-Keeps :
        {A D : Type 0} (check : World T → Result A) (bytes : Result D)
        (process : A → D → Exec (World T) (Unit {0}))
        → ((a : A) (d : D) → Keeps solvent (process a d))
        → Keeps solvent (with_data T r accounts check bytes process)
    unfolding with_data
    any_data-Keeps check bytes process k = search (keeps_rules, k) depth 8

    module _ (discriminator : ℕ) (bytes : List ℕ) (otherwise : Exec (World T) (Unit {0}))
        (k : Keeps solvent otherwise) where
      makers-Keeps : Keeps solvent (makers T r accounts discriminator bytes otherwise)
      unfolding makers
      makers-Keeps =
          Keeps-if (discriminator == 11) _ _
            (by_owner-Keeps _ _ _ _ _ (close_seat-KeepsSound base_vault quote_vault))
            (Keeps-if (discriminator == 20) _ _
              (by_owner-Keeps _ _ _ _ _ (mass_quote-KeepsSound base_vault quote_vault r.budget))
              (Keeps-if (discriminator == 21) _ _
                (by_owner-Keeps _ _ _ _ _
                  (place_limit-KeepsSound base_vault quote_vault r.budget r.slot))
                (Keeps-if (discriminator == 22) _ _
                  (by_owner-Keeps _ _ _ _ _ (cancel-KeepsSound base_vault quote_vault))
                  (Keeps-if (discriminator == 30) _ _
                    (by_owner-Keeps _ _ _ _ _
                      (place_take-KeepsSound base_vault quote_vault r.budget r.slot))
                    k))))

      update_config-Keeps :
          (config : ℕ) (d : UpdateConfig.UpdateConfigInstructionData)
          → Keeps solvent (UpdateConfig.process T config d)
      unfolding UpdateConfig.process
      update_config-Keeps config d = Keeps-if _ _ _ (Keeps-fail _) (configs-Keeps _)

      upkeep-Keeps : Keeps solvent (upkeep T r accounts discriminator bytes otherwise)
      unfolding upkeep
      upkeep-Keeps =
          Keeps-if (discriminator == 2) _ _
            (any_data-Keeps _ _ _
              λ _ d. on_book-Keeps _ (update_fee-KeepsSound base_vault quote_vault d))
            (Keeps-if (discriminator == 5) _ _ (any_data-Keeps _ _ _ update_config-Keeps) (
              Keeps-if (discriminator == 10) _ _
                (any_data-Keeps _ _ _
                  λ a _. on_book-Keeps _ (claim_seat-KeepsSound base_vault quote_vault a))
                (Keeps-if (discriminator == 40) _ _
                  (any_data-Keeps _ _ _
                    λ _ d. on_book-Keeps _ (reanchor-KeepsSound base_vault quote_vault r.budget d))
                  (Keeps-if (discriminator == 41) _ _
                    (any_data-Keeps _ _ _ λ _ d.
                      on_book-Keeps _
                        (reap_expired_process-KeepsSound base_vault quote_vault r.budget r.slot d))
                    k))))

      create_config-Keeps :
          (a : CreateConfig.CreateConfigAccounts) (d : UpdateConfig.UpdateConfigInstructionData)
          → Keeps solvent (CreateConfig.process T r a d)
      unfolding CreateConfig.process
      create_config-Keeps a d = Keeps-bind _ _ (Keeps-if _ _ _ (Keeps-fail _) (Keeps-pure tt)) λ _.
          Keeps-bind _ _ (Keeps-if _ _ _ (Keeps-fail _) (Keeps-pure tt))
            λ _. Keeps-bind _ _ (Keeps-lift _) λ _. configs-Keeps _

      listings-Keeps : Keeps solvent (listings T r accounts discriminator bytes otherwise)
      unfolding listings
      listings-Keeps =
          Keeps-if (discriminator == 0) _ _
            (with_data-Keeps _ _ _ λ w a d e s. ground (
              arith,
              create_market-version r.ids w.book.header w.configs accounts a e,
              s.healthy.version,
            ))
            (Keeps-if (discriminator == 4) _ _ (any_data-Keeps _ _ _ create_config-Keeps) k)

      payments-Keeps :
          Custody T base_vault quote_vault
          → Keeps solvent (payments T r accounts discriminator bytes otherwise)
      unfolding payments
      payments-Keeps c =
          Keeps-if (discriminator == 3) _ _
            (with_data-Keeps _ _ _ λ w a d e s.
              collect_fees-Yields T base_vault quote_vault c a w
                (collect_fees-At r.ids w.book.header accounts a e ∙ s.healthy.quote_key) s)
            (Keeps-if (discriminator == 12) _ _
              (with_data-Keeps _ _ _ λ w a d e s.
                let (p, q) = deposit-At r.ids w.book.header accounts a e in
                deposit-Yields T base_vault quote_vault c a d w (p ∙ s.healthy.base_key)
                  (q ∙ s.healthy.quote_key) s)
              (Keeps-if (discriminator == 13) _ _
                (with_data-Keeps _ _ _ λ w a d e s.
                  let (p, q) = vaults-At _ r.ids w.book.header accounts a e in
                  withdraw-Yields T base_vault quote_vault c a d w (p ∙ s.healthy.base_key)
                    (q ∙ s.healthy.quote_key) s)
                (Keeps-if (discriminator == 31) _ _
                  (with_data-Keeps _ _ _ λ w a d e s.
                    let (p, q) = vaults-At _ r.ids w.book.header accounts a e in
                    swap-Yields T base_vault quote_vault c r.budget r.slot a d w
                      (p ∙ s.healthy.base_key) (q ∙ s.healthy.quote_key) s)
                  k)))

    pub process_instruction-Keeps :
        (bytes : List ℕ)
        → Custody T base_vault quote_vault
        → Keeps solvent (process_instruction T r accounts bytes)
    unfolding process_instruction
    process_instruction-Keeps [] c = Keeps-raise _
    process_instruction-Keeps (discriminator ∷ bytes) c = makers-Keeps discriminator bytes _ (
        payments-Keeps discriminator bytes _
          (upkeep-Keeps discriminator bytes _
            (listings-Keeps discriminator bytes _ (Keeps-raise _)))
          c)

    -- Under token programs with the documented behaviour of a transfer, if `process_instruction`
    -- succeeds on a solvent world, with any accounts and any data, the world that it leaves is
    -- solvent. A world is solvent if its book is healthy (a bounded header with an aligned
    -- anchor, its version and these two vaults in it, and consistent bitmaps), all base atoms of
    -- the seats are at most the base vault's, and all quote atoms of the seats and the fees not
    -- yet collected are at most the quote vault's.
    pub process_instruction-IsSolvent :
        (bytes : List ℕ) (w v : World T)
        → Custody T base_vault quote_vault
        → IsSolvent w
        → process_instruction T r accounts bytes w ≡ ok (tt, v)
        → IsSolvent v
    unfolding solvent
    process_instruction-IsSolvent bytes w v c s e =
        Post-ok (λ _ u. IsSolvent w → IsSolvent u) ((process_instruction-Keeps bytes c).holds w) e s
