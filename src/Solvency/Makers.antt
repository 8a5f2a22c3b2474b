-- ===== src/Solvency/Makers.antt =====
-- The instructions that work on the book alone keep it sound: the makers', the authorities' and the
-- cranks' of program/src.
use solana_orderbook.Base.{
  ℕ, ◌≡◌, refl, inl, inr, Bool, Bool-cases, Option, none, some, List, ltb, ltb→lt, arith,
}
use solana_orderbook.Exec.{ok, modify, raise, gets, ◌>>=◌}
use solana_orderbook.Exec.Keeps.{
  Post, Post-and, Post-imp, Post-weaken, Keeps, Keeps-modify, keeps_rules,
}
use solana_orderbook.Exec.Triples.{Yields-gets, Yields-lift}
use solana_orderbook.State.Header.{Market, set_fee_bps, bump_seq}
use solana_orderbook.State.{Side}
use solana_orderbook.State.Seats.{Seat}
use solana_orderbook.Book.{Book, M, with_header, seat_at, edit_seat}
use solana_orderbook.Book.Hygiene.{set_anchor_tick, reanchor_step, reap_expired}
use solana_orderbook.Book.SeatTable.{check_seat, claim_seat, grant, grant_at}
use solana_orderbook.Book.Orders.{upsert_order, cancel_order}
use solana_orderbook.Book.MassQuote.{mass_quote_side}
use solana_orderbook.Book.Anchors.{Lands, reanchor_step-Yields}
use solana_orderbook.Book.Index.{IsIndexed, indexing}
use solana_orderbook.Book.Frame.{Frame}
use solana_orderbook.Book.Frame.Fixed.{listing, listings, both}
use solana_orderbook.Book.Frame.Lists.{write_rules}
use solana_orderbook.Book.Frame.Lifecycle.{upsert_order-Keeps, cancel_order-Keeps}
use solana_orderbook.Book.Frame.Bulk.{
  mass_quote_side-Keeps, slide_up-Keeps, slide_down-Keeps, reap_expired-Keeps,
}
use solana_orderbook.Admin.{update_fee, bumped}
use solana_orderbook.Admin.Guards.{update_fee-IsBounded}
use solana_orderbook.Ledger.{total_base, total_quote}
use solana_orderbook.Ledger.Conserves.{Conserves, conserving, same_seats-Conserves}
use solana_orderbook.Ledger.Matching.{matching}
use solana_orderbook.Instructions.Cancel
use solana_orderbook.Instructions.MassQuote
use solana_orderbook.Instructions.CloseSeat
use solana_orderbook.Instructions.ClaimSeat
use solana_orderbook.Instructions.Reanchor
use solana_orderbook.Instructions.ReapExpired
use solana_orderbook.Instructions.UpdateFee
use solana_orderbook.Solvency.Owing.{
  Healthy, Sound, sound, matching-KeepsSound, bump-KeepsSound, settle_seat-KeepsSound, relisted,
  owed_quote, Spares, with_seat-Sound,
}

-- What the slides of `reanchor_step` do: all but the anchor is as the other operations leave it.
unfoldable sliding : Frame
unfolding both conserving indexing listings
sliding = both conserving (both indexing listings)

Slides : Book → Book → Type 0
Slides b b' =
    Conserves b b' × ((IsIndexed b → IsIndexed b') × (listing b'.header ≡ listing b.header))

anchor-Keeps : (a : ℕ) → Keeps sliding.order (modify (with_header (set_anchor_tick a)))
unfolding with_header set_anchor_tick sliding
anchor-Keeps a = Keeps-modify _ λ b.
    (same_seats-Conserves b _ refl refl, ((λ i. record { bids = i.bids; asks = i.asks }), refl))

reanchor_step-Keeps :
    (budget target max_levels : ℕ) → Keeps sliding.order (reanchor_step budget target max_levels)
unfolding reanchor_step
reanchor_step-Keeps budget target max_levels =
    search (write_rules, slide_up-Keeps, slide_down-Keeps, anchor-Keeps) depth 12

check_seat-Keeps : (seat owner : ℕ) → Keeps matching.order (check_seat seat owner)
unfolding check_seat seat_at
check_seat-Keeps seat owner = search keeps_rules

module _ (base_vault quote_vault : ℕ) where
  abbrev KeepsSound : {A : Type 0} → M A → Type 0
  KeepsSound m = Keeps (sound base_vault quote_vault) m

  pub check_seat-KeepsSound : (seat owner : ℕ) → KeepsSound (check_seat seat owner)
  check_seat-KeepsSound seat owner =
      matching-KeepsSound base_vault quote_vault _ (check_seat-Keeps seat owner)

  pub upsert_order-KeepsSound :
      (budget : ℕ) (s : Side) (tick lots seat expiry_slot : ℕ) (slide : Bool)
      → KeepsSound (upsert_order budget s tick lots seat expiry_slot slide)
  upsert_order-KeepsSound budget s tick lots seat expiry_slot slide =
      matching-KeepsSound base_vault quote_vault _
        (upsert_order-Keeps matching budget s tick lots seat expiry_slot slide)

  cancel_order-KeepsSound : (seat idx seq : ℕ) → KeepsSound (cancel_order seat idx seq)
  cancel_order-KeepsSound seat idx seq =
      matching-KeepsSound base_vault quote_vault _ (cancel_order-Keeps matching seat idx seq)

  mass_quote_side-KeepsSound :
      (budget seat : ℕ) (s : Side) (payload : List ℕ) (count expiry_slot : ℕ) (cursor : ℕ × ℕ)
      → KeepsSound (mass_quote_side budget seat s payload count expiry_slot cursor)
  mass_quote_side-KeepsSound budget seat s payload count expiry_slot cursor =
      matching-KeepsSound base_vault quote_vault _
        (mass_quote_side-Keeps matching budget seat s payload count expiry_slot cursor)

  reap_expired-KeepsSound :
      (budget : ℕ) (s : Side) (start_tick max_count slot : ℕ)
      → KeepsSound (reap_expired budget s start_tick max_count slot)
  reap_expired-KeepsSound budget s start_tick max_count slot =
      matching-KeepsSound base_vault quote_vault _
        (reap_expired-Keeps matching budget s start_tick max_count slot)

  pub ruleset sound_rules =
      (keeps_rules, check_seat-KeepsSound, upsert_order-KeepsSound, bump-KeepsSound)

  pub cancel-KeepsSound :
      (owner : ℕ) (d : Cancel.CancelInstructionData) → KeepsSound (Cancel.process owner d)
  unfolding Cancel.process
  cancel-KeepsSound owner d =
      search (keeps_rules, check_seat-KeepsSound, cancel_order-KeepsSound, bump-KeepsSound)

  pub mass_quote-KeepsSound :
      (budget owner : ℕ) (d : MassQuote.MassQuoteInstructionData)
      → KeepsSound (MassQuote.process budget owner d)
  unfolding MassQuote.process seat_at
  mass_quote-KeepsSound budget owner d =
      search (keeps_rules, check_seat-KeepsSound, mass_quote_side-KeepsSound, bump-KeepsSound) depth
        9

  pub reap_expired_process-KeepsSound :
      (budget slot : ℕ) (d : ReapExpired.ReapExpiredInstructionData)
      → KeepsSound (ReapExpired.process budget slot d)
  unfolding ReapExpired.process
  reap_expired_process-KeepsSound budget slot d =
      search (keeps_rules, reap_expired-KeepsSound, bump-KeepsSound)

  vacate_seat-Spares : (s t : Seat) → CloseSeat.vacate_seat s ≡ ok t → Spares s t
  unfolding CloseSeat.vacate_seat
  vacate_seat-Spares s t e = (ground arith, ground arith)

  pub close_seat-KeepsSound :
      (owner seat_index : ℕ) → KeepsSound (CloseSeat.process owner seat_index)
  unfolding CloseSeat.process
  close_seat-KeepsSound owner seat_index = search (
    keeps_rules, check_seat-KeepsSound, settle_seat-KeepsSound, vacate_seat-Spares, bump-KeepsSound,
  )

  -- An account of where the slides end, and of what they keep.
  reanchor-Sound :
      (target anchor : ℕ) (b t : Book)
      → Slides b t × Lands target b anchor t
      → Healthy base_vault quote_vault b
      → Sound base_vault quote_vault b t
  unfolding owed_quote Slides
  reanchor-Sound target anchor b t ((c, (i, l)), m) h = record {
    healthy =
        relisted base_vault quote_vault b t l (rw m.written m.fits) (rw m.written m.between.aligned)
          (i h.indexed) h;
    base = c.base_le;
    quote = omega (arith, c.quote_le, c.fees);
  }

  reanchor_step-KeepsSound :
      (budget target max_levels : ℕ) → KeepsSound (reanchor_step budget target max_levels)
  unfolding sound sliding Slides
  reanchor_step-KeepsSound budget target max_levels = record {
    holds = λ b.
        let m = reanchor_step budget target max_levels b in
        Post-imp (Healthy base_vault quote_vault b) _ m λ h.
          Post-weaken (λ r t. Slides b t × Lands target b r.1 t)
            (λ _ t. Sound base_vault quote_vault b t) m
            (Post-and (λ _ t. Slides b t) (λ r t. Lands target b r.1 t) m
              ((reanchor_step-Keeps budget target max_levels).holds b)
              ((reanchor_step-Yields budget target max_levels b h.aligned h.bounded.window
                h.bounded.ticks).outcome))
            λ r t k. reanchor-Sound target r.1 b t k h;
  }

  pub reanchor-KeepsSound :
      (budget : ℕ) (d : Reanchor.ReanchorInstructionData) → KeepsSound (Reanchor.process budget d)
  unfolding Reanchor.process
  reanchor-KeepsSound budget d = search (keeps_rules, reanchor_step-KeepsSound, bump-KeepsSound)

  edit_seat-KeepsSound :
      (i : ℕ) (f : Seat → Seat) → ((s : Seat) → Spares s (f s)) → KeepsSound (edit_seat i f)
  unfolding edit_seat ◌>>=◌ gets modify raise sound
  edit_seat-KeepsSound i f h = record {
    holds = λ b. elim (Bool-cases (ltb i 128)) [
      | inl e ↦ rw e (
          with_seat-Sound base_vault quote_vault i (f (b.seats i)) b (ltb→lt i 128 e)
            (h (b.seats i)))
      | inr e ↦ rw e tt
    ];
  }

  grant-Spares : (owner : ℕ) (s : Seat) → Spares s (grant owner s)
  unfolding grant
  grant-Spares owner s = (omega arith, omega arith)

  grant_at-KeepsSound : (owner : ℕ) (o : Option ℕ) → KeepsSound (grant_at owner o)
  unfolding grant_at
  grant_at-KeepsSound owner none = search keeps_rules
  grant_at-KeepsSound owner (some i) = search (keeps_rules, edit_seat-KeepsSound, grant-Spares)

  pub claim_seat-KeepsSound : (owner : ℕ) → KeepsSound (ClaimSeat.process owner)
  unfolding ClaimSeat.process claim_seat
  claim_seat-KeepsSound owner = search (keeps_rules, grant_at-KeepsSound, bump-KeepsSound)

  fee_written :
      (fee_bps : ℕ) (h h' : Market)
      → update_fee fee_bps h ≡ ok h'
      → h' ≡ bump_seq (record h { fee_bps = fee_bps })
  unfolding update_fee set_fee_bps bumped
  fee_written fee_bps h h' e = ground arith

  update_fee-Sound :
      (fee_bps : ℕ) (b : Book) (h' : Market)
      → update_fee fee_bps b.header ≡ ok h'
      → Healthy base_vault quote_vault b
      → Sound base_vault quote_vault b (with_header (λ _. h') b)
  unfolding with_header owed_quote total_base total_quote bump_seq
  update_fee-Sound fee_bps b h' e h =
      let w : h' ≡ bump_seq (record b.header { fee_bps = fee_bps }) =
        fee_written fee_bps b.header h' e in
      record {
        healthy = record {
          bounded = (update_fee-IsBounded fee_bps b.header h' h.bounded e).0;
          aligned = rw w h.aligned;
          indexed = record { bids = h.indexed.bids; asks = h.indexed.asks };
          version = rw w h.version;
          base_key = rw w h.base_key;
          quote_key = rw w h.quote_key;
        };
        base = omega arith;
        quote = rw w (omega arith);
      }

  pub update_fee-KeepsSound : (fee_bps : ℕ) → KeepsSound (UpdateFee.process fee_bps)
  unfolding UpdateFee.process sound modify
  update_fee-KeepsSound fee_bps = record {
    holds = λ b.
        (Yields-gets
          {R = λ _ t. Healthy base_vault quote_vault b → Sound base_vault quote_vault b t}
          (λ c. c.header) _ b
          (Yields-lift (update_fee fee_bps b.header) _ b
            λ h' e. record { outcome = update_fee-Sound fee_bps b h' e })).outcome;
  }
