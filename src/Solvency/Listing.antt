-- ===== src/Solvency/Listing.antt =====
-- A market that program/src/admin/create_market.rs lists starts out solvent.
use solana_orderbook.Base.{
  ℕ, zero, suc, ◌≤◌, ◌<◌, ◌≡◌, ◌%◌, refl, Bool, arith, u32_mod, sum_below-zero,
}
use solana_orderbook.Exec.{ok, modify, ◌>>◌}
use solana_orderbook.Exec.Keeps.{Post-ok, Post-weaken, Preorder, Keeps, Keeps-bind, keeps_rules}
use solana_orderbook.Exec.Triples.{Yields, Yields-bind, Yields-gets, Yields-lift, Yields-weaken}
use solana_orderbook.State.Header.{Market, set_fee_bps}
use solana_orderbook.State.Bounds.{IsBounded}
use solana_orderbook.Book.{Book, with_header}
use solana_orderbook.Book.Pool.{thread, thread_free_list}
use solana_orderbook.Book.Frame.{Frame}
use solana_orderbook.Book.Frame.Lists.{write_rules}
use solana_orderbook.Book.Index.{IsIndexed}
use solana_orderbook.Ledger.{base_of, quote_of, total_base, total_quote}
use solana_orderbook.Ledger.Matching.{matching}
use solana_orderbook.Admin.{
  CreateMarketInstructionData, check_params, write_params, set_max_lots_per_order, create_market,
}
use solana_orderbook.Admin.Guards.{create_market-IsBounded}
use solana_orderbook.Runtime.{TokenProgram, World}
use solana_orderbook.Runtime.Programs.{Runtime}
use solana_orderbook.Instructions.{bump}
use solana_orderbook.Instructions.CreateMarket
use solana_orderbook.Instructions.CreateMarket.{
  CreateMarketAccounts, Mints, list_market, write_market,
}
use solana_orderbook.Solvency.Owing.{
  Healthy, Sound, sound, matching-KeepsSound, bump-KeepsSound, sound-Yields, owed_quote,
}
use solana_orderbook.Solvency.Vaults.{Yields-on_book}
use solana_orderbook.Solvency.Program.{IsSolvent}

-- A market account that the system program has just allocated: all zero.
pub record IsFresh (b : Book) : Type 0 where
  pub base : (i : ℕ) → base_of (b.seats i) ≡ 0
  pub quote : (i : ℕ) → quote_of (b.seats i) ≡ 0
  pub fees : b.header.fees_accrued_quote ≡ 0
  pub indexed : IsIndexed b

module _ (F : Frame) where
  thread-Keeps : (rounds from head : ℕ) → Keeps F.order (thread rounds from head)
  unfolding thread
  thread-Keeps zero from head = search write_rules
  thread-Keeps (suc rounds) from head =
      let rest = thread-Keeps rounds from in search (write_rules, rest) depth 9

  pub thread_free_list-Keeps : (from to : ℕ) → Keeps F.order (thread_free_list from to)
  unfolding thread_free_list
  thread_free_list-Keeps from to = search (write_rules, thread-Keeps) depth 9

fresh_base : (b : Book) → IsFresh b → total_base b ≡ 0
unfolding total_base
fresh_base b f = sum_below-zero 128 (λ i. base_of (b.seats i)) f.base

fresh_quote : (b : Book) → IsFresh b → total_quote b ≡ 0
unfolding total_quote
fresh_quote b f = sum_below-zero 128 (λ i. quote_of (b.seats i)) f.quote

-- The parameters that are written, once the guards have passed.
module _ (d : CreateMarketInstructionData) (same_mints : Bool) (tick_limit : ℕ) (h h' : Market)
    (small : d.max_lots_per_order < u32_mod) (passed : check_params d same_mints ≡ ok tick_limit)
    (written : write_params d h (ok tick_limit) ≡ ok h') where
  written-IsBounded : IsBounded h' × (h'.anchor_tick % 64 ≡ 0)
  written-IsBounded =
      create_market-IsBounded d same_mints h h' small (unfold create_market in (rw passed written))

  written-fees : h'.fees_accrued_quote ≡ h.fees_accrued_quote
  unfolding write_params set_fee_bps set_max_lots_per_order
  written-fees = ground arith

module _ (r : Runtime) (a : CreateMarketAccounts) (d : CreateMarketInstructionData) (m : Mints)
    (tick_limit : ℕ) (same_mints : Bool) (small : d.max_lots_per_order < u32_mod)
    (passed : check_params d same_mints ≡ ok tick_limit) where
  -- A healthy book that owes nothing.
  Starts : Book → Type 0
  Starts t = Healthy a.base_vault a.quote_vault t × ((total_base t ≤ 0) × (owed_quote t ≤ 0))

  listed-Starts :
      (b : Book) (h' : Market)
      → IsFresh b
      → write_params d b.header (ok tick_limit) ≡ ok h'
      → Starts (with_header (λ _. list_market r a m h') b)
  unfolding Starts with_header list_market owed_quote total_base total_quote
  listed-Starts b h' f e =
      let (k, aligned) = written-IsBounded d same_mints tick_limit b.header h' small passed e in
      (
        record {
          bounded = record {
            window = k.window;
            ticks = k.ticks;
            value = k.value;
            base = k.base;
            fee = k.fee;
            lots = k.lots;
          };
          aligned = aligned;
          indexed = record { bids = f.indexed.bids; asks = f.indexed.asks };
          version = refl;
          base_key = refl;
          quote_key = refl;
        },
        (
          omega (arith, fresh_base b f),
          omega (
            arith,
            fresh_quote b f,
            f.fees,
            written-fees d same_mints tick_limit b.header h' small passed e,
          ),
        ),
      )

  rest-KeepsSound :
      Keeps
        (sound a.base_vault a.quote_vault)
        (do thread_free_list 1 (CreateMarket.capacity_of a.market.data_len); bump)
  rest-KeepsSound =
      Keeps-bind _ _
        (matching-KeepsSound a.base_vault a.quote_vault _ (thread_free_list-Keeps matching 1 _))
        λ _. bump-KeepsSound a.base_vault a.quote_vault

  write_market-Yields :
      (b : Book) → IsFresh b → Yields (λ _ t. Starts t) (write_market r a d m tick_limit) b
  unfolding write_market modify Starts
  write_market-Yields b f =
      Yields-gets (λ b. b.header) _ b
        (Yields-lift (write_params d b.header (ok tick_limit)) _ b λ h' e.
          Yields-bind (λ _ t. Starts t) _ _ b (record { outcome = listed-Starts b h' f e })
            λ _ t (k, (p, q)).
              Yields-weaken (λ _ u. Sound a.base_vault a.quote_vault t u) _ t
                (sound-Yields a.base_vault a.quote_vault _ t rest-KeepsSound k)
                λ _ u s. (s.healthy, (omega (arith, s.base, p), omega (arith, s.quote, q))))

module _ (T : TokenProgram) (r : Runtime) (a : CreateMarketAccounts) where
  -- The guards on the mints write nothing.
  fresh : Preorder (World T)
  fresh = record {
    Rel = λ w v. IsFresh w.book → IsFresh v.book;
    rel_refl = λ w k. k;
    rel_trans = λ w v u p q k. q (p k);
  }

  check_mints-Keeps : Keeps fresh (CreateMarket.check_mints T r a)
  unfolding CreateMarket.check_mints
  check_mints-Keeps = search keeps_rules depth 20

  -- If the `process` of `create_market` succeeds on a fresh market account (no funds on any seat,
  -- no fees, consistent bitmaps) with a most lots per order that is a u32, the world that it
  -- leaves is solvent for the vaults that it was given.
  pub create_market-IsSolvent :
      (d : CreateMarketInstructionData) (w v : World T)
      → d.max_lots_per_order < u32_mod
      → IsFresh w.book
      → CreateMarket.process T r a d w ≡ ok (tt, v)
      → IsSolvent T a.base_vault a.quote_vault v
  unfolding CreateMarket.process fresh Starts
  create_market-IsSolvent d w v small f e =
      Post-ok (λ _ v. IsSolvent T a.base_vault a.quote_vault v)
        ((Yields-lift (check_params d _) _ w λ tick_limit p.
          Yields-bind (λ _ u. IsFresh u.book) (CreateMarket.check_mints T r a) _ w
            (record {
              outcome =
                  Post-weaken (λ _ u. IsFresh w.book → IsFresh u.book) (λ _ u. IsFresh u.book)
                    (CreateMarket.check_mints T r a w) (check_mints-Keeps.holds w) λ _ u k. k f;
            })
            λ m u g.
              Yields-on_book T (λ _ t. Starts r a d m tick_limit _ small p t) _ u
                (write_market-Yields r a d m tick_limit _ small p u.book g)
                λ _ t (k, (x, y)). record {
                  healthy = k;
                  base_funds = omega (arith, x);
                  quote_funds = omega (arith, y);
                }).outcome)
        e
