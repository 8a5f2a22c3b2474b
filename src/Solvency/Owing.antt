-- ===== src/Solvency/Owing.antt =====
-- What a healthy book owes to its seats and to its fee authority.
use solana_orderbook.Base.{ℕ, ◌+◌, ◌%◌, ◌≤◌, ◌<◌, ◌≡◌, refl, ap, ◌∙◌, arith}
use solana_orderbook.Exec.{Result, ok}
use solana_orderbook.Exec.Keeps.{Preorder, Keeps, Keeps-modify, Post-weaken}
use solana_orderbook.Exec.Triples.{Yields}
use solana_orderbook.State.Constants.{market_version}
use solana_orderbook.State.Header.{Market, bump_seq}
use solana_orderbook.State.Bounds.{IsBounded}
use solana_orderbook.State.Seats.{Seat}
use solana_orderbook.Book.{Book, with_header, with_seat, settle_seat}
use solana_orderbook.Book.Index.{IsIndexed}
use solana_orderbook.Book.Frame.Fixed.{SameParams, listing}
use solana_orderbook.Instructions.{bump}
use solana_orderbook.Ledger.{
  base_of, quote_of, total_base, total_quote, total_base-with_seat, total_quote-with_seat,
}
use solana_orderbook.Ledger.Matching.{Between, matching}
use solana_orderbook.Ledger.Settle.{Post-settle_seat}

-- All quote that the market owes: to the seats, and the fees not yet collected.
unfoldable pub owed_quote : Book → ℕ
owed_quote b = total_quote b + b.header.fees_accrued_quote

-- A book as the program keeps it, over these two vaults.
pub record IsHealthy (base_vault quote_vault : ℕ) (b : Book) : Type 0 where
  pub bounded : IsBounded b.header
  pub aligned : b.header.anchor_tick % 64 ≡ 0
  pub indexed : IsIndexed b
  pub version : b.header.version ≡ market_version
  pub base_key : b.header.base_vault ≡ base_vault
  pub quote_key : b.header.quote_vault ≡ quote_vault

-- The fields of a listing, and the bounds on them.
IsBounded-listing :
    (h h' : Market)
    → listing h' ≡ listing h
    → h'.anchor_tick + 8191 ≤ h.tick_limit
    → IsBounded h
    → IsBounded h'
IsBounded-listing h h' e near b =
    let limit : h'.tick_limit ≡ h.tick_limit = ap (λ m. m.tick_limit) e in
    let size : h'.tick_size ≡ h.tick_size = ap (λ m. m.tick_size) e in
    let most : h'.max_lots_per_order ≡ h.max_lots_per_order = ap (λ m. m.max_lots_per_order) e in
    let lot : h'.base_lot_size ≡ h.base_lot_size = ap (λ m. m.base_lot_size) e in
    let rate : h'.fee_bps ≡ h.fee_bps = ap (λ m. m.fee_bps) e in
    record {
      window = rw limit near;
      ticks = rw limit b.ticks;
      value = rw (limit, size, most) b.value;
      base = rw (lot, most) b.base;
      fee = rw rate b.fee;
      lots = rw most b.lots;
    }

-- A seat that holds no more than it did.
abbrev pub Spares : Seat → Seat → Type 0
Spares s t = (base_of t ≤ base_of s) × (quote_of t ≤ quote_of s)

module _ (base_vault quote_vault : ℕ) where
  abbrev pub Healthy : Book → Type 0
  Healthy = IsHealthy base_vault quote_vault

  -- The listing is kept, and so are the bitmaps; the anchor may move inside the ticks of the market.
  pub relisted :
      (b b' : Book)
      → listing b'.header ≡ listing b.header
      → b'.header.anchor_tick + 8191 ≤ b.header.tick_limit
      → b'.header.anchor_tick % 64 ≡ 0
      → IsIndexed b'
      → Healthy b
      → Healthy b'
  relisted b b' e near aligned i h = record {
    bounded = IsBounded-listing b.header b'.header e near h.bounded;
    aligned = aligned;
    indexed = i;
    version = ap (λ m. m.version) e ∙ h.version;
    base_key = ap (λ m. m.base_vault) e ∙ h.base_key;
    quote_key = ap (λ m. m.quote_vault) e ∙ h.quote_key;
  }

  pub SameParams-Healthy : (b b' : Book) → SameParams b b' → IsIndexed b' → Healthy b → Healthy b'
  SameParams-Healthy b b' p i h =
      relisted b b' p.listed (rw p.anchor_tick h.bounded.window) (rw p.anchor_tick h.aligned) i h

  -- `b'` is healthy and owes no more than `b`.
  pub record Sound (b b' : Book) : Type 0 where
    pub healthy : Healthy b'
    pub base : total_base b' ≤ total_base b
    pub quote : owed_quote b' ≤ owed_quote b

  pub Sound-refl : (b : Book) → Healthy b → Sound b b
  Sound-refl b h = record { healthy = h; base = omega arith; quote = omega arith }

  pub Sound-trans : (b c d : Book) → Sound b c → Sound c d → Sound b d
  Sound-trans b c d p q = record {
    healthy = q.healthy;
    base = omega (arith, p.base, q.base);
    quote = omega (arith, p.quote, q.quote);
  }

  unfoldable pub sound : Preorder Book
  sound = record {
    Rel = λ b b'. Healthy b → Sound b b';
    rel_refl = Sound-refl;
    rel_trans = λ b c d p q h. Sound-trans b c d (p h) (q ((p h).healthy));
  }

  Between-Sound : (b b' : Book) → Between b b' → Healthy b → Sound b b'
  unfolding owed_quote
  Between-Sound b b' (c, (i, p)) h = record {
    healthy = SameParams-Healthy b b' p (i h.indexed) h;
    base = c.base_le;
    quote = omega (arith, c.quote_le, c.fees);
  }

  -- An operation that every frame allows.
  pub matching-KeepsSound :
      {A : Type 0} (m : Book → Result (A × Book)) → Keeps matching.order m → Keeps sound m
  unfolding matching sound
  matching-KeepsSound m k = record {
    holds = λ b.
        Post-weaken (λ _ t. Between b t) (λ _ t. Healthy b → Sound b t) (m b) (k.holds b)
          λ _ t. Between-Sound b t;
  }

  -- What a sound operation does to a healthy book.
  pub sound-Yields :
      {A : Type 0} (m : Book → Result (A × Book)) (b : Book)
      → Keeps sound m
      → Healthy b
      → Yields (λ _ t. Sound b t) m b
  unfolding sound
  sound-Yields m b k h = record {
    outcome =
        Post-weaken (λ _ t. Healthy b → Sound b t) (λ _ t. Sound b t) (m b) (k.holds b)
          λ _ t s. s h;
  }

  pub bump-KeepsSound : Keeps sound bump
  unfolding bump with_header bump_seq sound owed_quote total_base total_quote
  bump-KeepsSound = Keeps-modify _ λ b h. record {
    healthy =
        relisted b _ refl h.bounded.window h.aligned
          (record { bids = h.indexed.bids; asks = h.indexed.asks }) h;
    base = omega arith;
    quote = omega arith;
  }

  pub with_seat-Healthy : (i : ℕ) (s : Seat) (b : Book) → Healthy b → Healthy (with_seat i s b)
  unfolding with_seat
  with_seat-Healthy i s b h = record {
    bounded = h.bounded;
    aligned = h.aligned;
    indexed = record { bids = h.indexed.bids; asks = h.indexed.asks };
    version = h.version;
    base_key = h.base_key;
    quote_key = h.quote_key;
  }

  pub same_fees :
      (i : ℕ) (s : Seat) (b : Book)
      → (with_seat i s b).header.fees_accrued_quote ≡ b.header.fees_accrued_quote
  unfolding with_seat
  same_fees i s b = refl

  pub with_seat-Sound :
      (i : ℕ) (s : Seat) (b : Book)
      → i < 128
      → Spares (b.seats i) s
      → Healthy b
      → Sound b (with_seat i s b)
  unfolding owed_quote
  with_seat-Sound i s b small (p, q) h = record {
    healthy = with_seat-Healthy i s b h;
    base = omega (arith, p, total_base-with_seat i s b small);
    quote = omega (arith, q, total_quote-with_seat i s b small, same_fees i s b);
  }

  pub settle_seat-KeepsSound :
      (i : ℕ) (f : Seat → Result Seat)
      → ((s t : Seat) → f s ≡ ok t → Spares s t)
      → Keeps sound (settle_seat i f)
  unfolding sound
  settle_seat-KeepsSound i f k = record {
    holds = λ b.
        Post-settle_seat (λ t. Healthy b → Sound b t) i f b
          λ s small e. with_seat-Sound i s b small (k (b.seats i) s e);
  }
