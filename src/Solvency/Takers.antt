-- ===== src/Solvency/Takers.antt =====
-- The takers' instructions of program/src: what `take` adds to the makers, the taker's seat pays.
use native.Mathlib.Nat.{mul-le-mul_left}
use solana_orderbook.Base.{ℕ, ◌+◌, ◌*◌, ◌≤◌, ◌<◌, ◌≡◌, refl, ap, ltb, arith, u64_max, add64, sub64}
use solana_orderbook.Exec.{Result, ok, pure}
use solana_orderbook.Exec.Keeps.{Post-imp, Keeps, keeps_rules}
use solana_orderbook.Exec.Triples.{
  Yields, Yields-bind, Yields-gets, Yields-if, Yields-pure, Yields-weaken,
}
use solana_orderbook.State.{Side, bid, ask, opposite, TakeParams, TakeResult}
use solana_orderbook.State.Header.{base_atoms}
use solana_orderbook.State.Seats.{Seat}
use solana_orderbook.Book.{Book, M, with_seat, settle_seat}
use solana_orderbook.Book.Take.{take}
use solana_orderbook.Ledger.{
  base_of, quote_of, total_base, total_quote, total_base-with_seat, total_quote-with_seat,
}
use solana_orderbook.Ledger.Matching.{Within, base_fits}
use solana_orderbook.Ledger.Settle.{Settled, Post-settle_seat}
use solana_orderbook.Ledger.Taking.{Trade, take-Yields}
use solana_orderbook.Instructions.PlaceLimit
use solana_orderbook.Instructions.PlaceTake
use solana_orderbook.Solvency.Owing.{
  Healthy, Sound, sound, bump-KeepsSound, owed_quote, SameParams-Healthy, with_seat-Healthy,
  Sound-trans, sound-Yields, same_fees,
}
use solana_orderbook.Solvency.Makers.{check_seat-KeepsSound, upsert_order-KeepsSound}

-- The taker's seat on one side of a trade, for `base` atoms.
abbrev pub Pays : Side → ℕ → TakeResult → Seat → Seat → Type 0
Pays bid base res s t =
    (quote_of t + (res.quote + res.fee) ≤ quote_of s) × (base_of t ≤ base_of s + base)
Pays ask base res s t =
    (base_of t + base ≤ base_of s) × (quote_of t + res.fee ≤ quote_of s + res.quote)

-- The fee is a small part of the quote, and both fit a u64.
pub record IsPriced (res : TakeResult) : Type 0 where
  pub part : res.fee ≤ res.quote
  pub fits : res.quote + res.fee ≤ u64_max

module _ (base : ℕ) (res : TakeResult) (priced : IsPriced res) (s t : Seat) where
  limit_taker-Pays :
      (side : Side) → PlaceLimit.settle_taker side base res s ≡ ok t → Pays side base res s t
  unfolding PlaceLimit.settle_taker add64 sub64
  limit_taker-Pays bid e = (ground (arith, priced.fits), ground arith)
  limit_taker-Pays ask e = (ground arith, ground (arith, priced.fits, priced.part))

  take_taker-Pays :
      (side : Side) (min_out : ℕ)
      → PlaceTake.settle_taker side min_out base res s ≡ ok t
      → Pays side base res s t
  unfolding PlaceTake.settle_taker add64 sub64
  take_taker-Pays bid min_out e = (ground (arith, priced.fits), ground arith)
  take_taker-Pays ask min_out e = (ground arith, ground (arith, priced.fits, priced.part))

module _ (base_vault quote_vault : ℕ) (b : Book) (h : Healthy base_vault quote_vault b) where
  pub Trade-IsPriced :
      (p : TakeParams) (res : TakeResult) (t : Book) → Trade b p res t → IsPriced res
  Trade-IsPriced p res t k = record {
    part = omega (arith, k.fee, mul-le-mul_left res.quote h.bounded.fee);
    fits = omega (arith, k.fee, k.fits, mul-le-mul_left res.quote h.bounded.fee);
  }

  pub Trade-Healthy :
      (p : TakeParams) (res : TakeResult) (t : Book)
      → Trade b p res t
      → Healthy base_vault quote_vault t
  Trade-Healthy p res t k = SameParams-Healthy base_vault quote_vault b t k.params k.indexed h

  -- The base of the lots that are traded.
  pub Trade-base :
      (p : TakeParams) (res : TakeResult) (t : Book)
      → Trade b p res t
      → base_atoms t.header res.lots ≡ res.lots * b.header.base_lot_size
  Trade-base p res t k =
      rw
        (
          base_fits t.header (Trade-Healthy p res t k).bounded res.lots
              (rw (ap (λ m. m.max_lots_per_order) k.params.listed) k.few),
          k.params.base_lot_size,
        )
        refl

  -- A trade that the taker's seat has paid for.
  paid-Sound :
      (p : TakeParams) (res : TakeResult) (t : Book) (i : ℕ) (s : Seat)
      → Trade b p res t
      → i < 128
      → Pays p.side (base_atoms t.header res.lots) res (t.seats i) s
      → Sound base_vault quote_vault b (with_seat i s t)
  unfolding owed_quote add64 opposite
  paid-Sound p res t i s k small pays = record {
    healthy = with_seat-Healthy base_vault quote_vault i s t (Trade-Healthy p res t k);
    base = paid_base p.side k.settled pays;
    quote = paid_quote p.side k.settled pays;
  }
    where
      paid_base :
          (side : Side)
          → Settled (opposite side) (res.lots * b.header.base_lot_size) res.quote b t
          → Pays side (base_atoms t.header res.lots) res (t.seats i) s
          → total_base (with_seat i s t) ≤ total_base b
      paid_base bid (g, q) (x, y) =
          omega (arith, g.le, y, total_base-with_seat i s t small, Trade-base p res t k)
      paid_base ask (g, q) (x, y) =
          omega (arith, g.le, x, total_base-with_seat i s t small, Trade-base p res t k)

      paid_quote :
          (side : Side)
          → Settled (opposite side) (res.lots * b.header.base_lot_size) res.quote b t
          → Pays side (base_atoms t.header res.lots) res (t.seats i) s
          → total_quote (with_seat i s t) + (with_seat i s t).header.fees_accrued_quote
            ≤ total_quote b + b.header.fees_accrued_quote
      paid_quote bid (g, q) (x, y) = omega (
        arith,
        q.le,
        x,
        total_quote-with_seat i s t small,
        same_fees base_vault quote_vault i s t,
        k.fees,
      )
      paid_quote ask (g, q) (x, y) = omega (
        arith,
        q.le,
        y,
        total_quote-with_seat i s t small,
        same_fees base_vault quote_vault i s t,
        k.fees,
      )

  -- A trade of nothing.
  empty-Sound :
      (p : TakeParams) (res : TakeResult) (t : Book)
      → Trade b p res t
      → res.lots ≡ 0
      → Sound base_vault quote_vault b t
  unfolding owed_quote add64 opposite
  empty-Sound p res t k none = record {
    healthy = Trade-Healthy p res t k;
    base = empty_base p.side k.settled;
    quote = empty_quote p.side k.limit k.settled;
  }
    where
      empty_base :
          (side : Side)
          → Settled (opposite side) (res.lots * b.header.base_lot_size) res.quote b t
          → total_base t ≤ total_base b
      empty_base bid (g, q) = omega (arith, g.le)
      empty_base ask (g, q) = omega (arith, g.le, ap (λ (x : ℕ). x * b.header.base_lot_size) none)

      empty_quote :
          (side : Side)
          → Within side (p.limit_tick * b.header.tick_size) res.lots res.quote
          → Settled (opposite side) (res.lots * b.header.base_lot_size) res.quote b t
          → total_quote t + t.header.fees_accrued_quote
            ≤ total_quote b + b.header.fees_accrued_quote
      empty_quote bid l (g, q) = omega (
        arith,
        q.le,
        l,
        ap (λ (x : ℕ). p.limit_tick * b.header.tick_size * x) none,
        k.fees,
        (Trade-IsPriced p res t k).part,
      )
      empty_quote ask l (g, q) = omega (arith, q.le, k.fees, (Trade-IsPriced p res t k).part)

  -- The taker's seat settles what `take` has traded.
  settled-Sound :
      (p : TakeParams) (res : TakeResult) (t : Book) (i : ℕ) (f : Seat → Result Seat)
      → Trade b p res t
      → ((s s' : Seat) → f s ≡ ok s' → Pays p.side (base_atoms t.header res.lots) res s s')
      → Yields (λ _ u. Sound base_vault quote_vault b u) (settle_seat i f) t
  settled-Sound p res t i f k pays = record {
    outcome =
        Post-settle_seat (λ u. Sound base_vault quote_vault b u) i f t
          λ s small e. paid-Sound p res t i s k small (pays (t.seats i) s e);
  }

  -- An operation after a sound one.
  after-Sound :
      {A : Type 0} (m : M A) (t : Book)
      → Keeps (sound base_vault quote_vault) m
      → Sound base_vault quote_vault b t
      → Yields (λ _ u. Sound base_vault quote_vault b u) m t
  after-Sound m t k s =
      Yields-weaken (λ _ u. Sound base_vault quote_vault t u) m t
        (sound-Yields base_vault quote_vault m t k s.healthy)
        λ _ u q. Sound-trans base_vault quote_vault b t u s q

  cross-Yields :
      (budget slot : ℕ) (d : PlaceLimit.PlaceLimitInstructionData)
      → Yields (λ _ u. Sound base_vault quote_vault b u) (PlaceLimit.cross budget slot d) b
  unfolding PlaceLimit.cross
  cross-Yields budget slot d =
      Yields-bind (λ res t. Trade b _ res t) (take budget _) _ b
        (take-Yields b _ h.bounded budget h.indexed (omega arith))
        λ res t k.
          Yields-gets (λ c. c.header) _ t
            (Yields-bind (λ _ u. Sound base_vault quote_vault b u) _ _ t
              (Yields-if (ltb 0 res.lots) _ (pure tt) t
                (λ e. settled-Sound _ res t d.seat_index _ k λ s s'.
                  limit_taker-Pays (base_atoms t.header res.lots) res (Trade-IsPriced _ res t k) s
                    s' d.side)
                λ e. Yields-pure tt t (empty-Sound _ res t k (ground arith)))
              λ _ u s.
                after-Sound _ u
                  (search (keeps_rules, upsert_order-KeepsSound, bump-KeepsSound) depth 9) s)

  trade-Yields :
      (budget slot : ℕ) (d : PlaceTake.PlaceTakeInstructionData)
      → Yields (λ _ u. Sound base_vault quote_vault b u) (PlaceTake.trade budget slot d) b
  unfolding PlaceTake.trade
  trade-Yields budget slot d =
      Yields-bind (λ res t. Trade b _ res t) (take budget _) _ b
        (take-Yields b _ h.bounded budget h.indexed (omega arith))
        λ res t k.
          Yields-gets (λ c. c.header) _ t
            (Yields-bind (λ _ u. Sound base_vault quote_vault b u) _ _ t
              (settled-Sound _ res t d.seat_index _ k λ s s'.
                take_taker-Pays (base_atoms t.header res.lots) res (Trade-IsPriced _ res t k) s s'
                  d.side d.min_out)
              λ _ u s. after-Sound _ u (search bump-KeepsSound) s)

module _ (base_vault quote_vault : ℕ) where
  Yields-KeepsSound :
      {A : Type 0} (m : M A)
      → ((b : Book)
          → Healthy base_vault quote_vault b
          → Yields (λ _ u. Sound base_vault quote_vault b u) m b)
      → Keeps (sound base_vault quote_vault) m
  unfolding sound
  Yields-KeepsSound m y = record {
    holds = λ b. Post-imp (Healthy base_vault quote_vault b) _ (m b) λ h. (y b h).outcome;
  }

  cross-KeepsSound :
      (budget slot : ℕ) (d : PlaceLimit.PlaceLimitInstructionData)
      → Keeps (sound base_vault quote_vault) (PlaceLimit.cross budget slot d)
  cross-KeepsSound budget slot d =
      Yields-KeepsSound _ λ b h. cross-Yields base_vault quote_vault b h budget slot d

  trade-KeepsSound :
      (budget slot : ℕ) (d : PlaceTake.PlaceTakeInstructionData)
      → Keeps (sound base_vault quote_vault) (PlaceTake.trade budget slot d)
  trade-KeepsSound budget slot d =
      Yields-KeepsSound _ λ b h. trade-Yields base_vault quote_vault b h budget slot d

  pub place_limit-KeepsSound :
      (budget slot owner : ℕ) (d : PlaceLimit.PlaceLimitInstructionData)
      → Keeps (sound base_vault quote_vault) (PlaceLimit.process budget slot owner d)
  unfolding PlaceLimit.process
  place_limit-KeepsSound budget slot owner d =
      search
        (
          keeps_rules, check_seat-KeepsSound, upsert_order-KeepsSound, cross-KeepsSound,
          bump-KeepsSound,
        )
        depth 9

  pub place_take-KeepsSound :
      (budget slot owner : ℕ) (d : PlaceTake.PlaceTakeInstructionData)
      → Keeps (sound base_vault quote_vault) (PlaceTake.process budget slot owner d)
  unfolding PlaceTake.process
  place_take-KeepsSound budget slot owner d =
      search (keeps_rules, check_seat-KeepsSound, trade-KeepsSound)
