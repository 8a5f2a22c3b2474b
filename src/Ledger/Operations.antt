-- ===== src/Ledger/Operations.antt =====
-- The operations of program/src/state.rs and the frame `conserving`.
use solana_orderbook.Base.{ℕ, ◌≡◌, refl, Bool, List}
use solana_orderbook.Exec.{ok, modify}
use solana_orderbook.Exec.Keeps.{Post-ok, Keeps, Keeps-modify}
use solana_orderbook.State.{Side}
use solana_orderbook.Book.{Book, with_header}
use solana_orderbook.Book.Orders.{upsert_order, cancel_order}
use solana_orderbook.Book.MassQuote.{mass_quote_side}
use solana_orderbook.Book.Hygiene.{set_anchor_tick, reanchor_step, reap_expired}
use solana_orderbook.Book.Frame.Lists.{write_rules}
use solana_orderbook.Book.Frame.Lifecycle.{upsert_order-Keeps, cancel_order-Keeps}
use solana_orderbook.Book.Frame.Bulk.{
  mass_quote_side-Keeps, slide_up-Keeps, slide_down-Keeps, reap_expired-Keeps,
}
use solana_orderbook.Ledger.Conserves.{Conserves, same_seats-Conserves, conserving}

module _ (budget : ℕ) where
  -- If `upsert_order` succeeds, the fee counter is unchanged, and the totals of base and of quote
  -- over all 128 seats do not grow and are the same modulo 2^64.
  pub upsert_order-Conserves :
      (s : Side) (tick lots seat expiry_slot : ℕ) (slide : Bool) (b b' : Book) (idx : ℕ)
      → upsert_order budget s tick lots seat expiry_slot slide b ≡ ok (idx, b')
      → Conserves b b'
  unfolding conserving
  upsert_order-Conserves s tick lots seat expiry_slot slide b b' idx e =
      Post-ok (λ _ t. Conserves b t)
        ((upsert_order-Keeps conserving budget s tick lots seat expiry_slot slide).holds b) e

  -- If `mass_quote_side` succeeds, the fee counter is unchanged, and the totals of base and of
  -- quote over all 128 seats do not grow and are the same modulo 2^64.
  pub mass_quote_side-Conserves :
      (seat : ℕ) (s : Side) (payload : List ℕ) (count expiry_slot : ℕ) (cursor cursor' : ℕ × ℕ)
      (b b' : Book)
      → mass_quote_side budget seat s payload count expiry_slot cursor b ≡ ok (cursor', b')
      → Conserves b b'
  unfolding conserving
  mass_quote_side-Conserves seat s payload count expiry_slot cursor cursor' b b' e =
      Post-ok (λ _ t. Conserves b t)
        ((mass_quote_side-Keeps conserving budget seat s payload count expiry_slot cursor).holds b)
        e

  -- If `reap_expired` succeeds, the fee counter is unchanged, and the totals of base and of quote
  -- over all 128 seats do not grow and are the same modulo 2^64.
  pub reap_expired-Conserves :
      (s : Side) (start_tick max_count slot : ℕ) (b b' : Book) (reaped : ℕ)
      → reap_expired budget s start_tick max_count slot b ≡ ok (reaped, b')
      → Conserves b b'
  unfolding conserving
  reap_expired-Conserves s start_tick max_count slot b b' reaped e =
      Post-ok (λ _ t. Conserves b t)
        ((reap_expired-Keeps conserving budget s start_tick max_count slot).holds b) e

  anchor-Keeps : (a : ℕ) → Keeps conserving.order (modify (with_header (set_anchor_tick a)))
  unfolding with_header set_anchor_tick conserving
  anchor-Keeps a = Keeps-modify _ λ b. same_seats-Conserves b _ refl refl

  reanchor_step-Keeps :
      (target max_levels : ℕ) → Keeps conserving.order (reanchor_step budget target max_levels)
  unfolding reanchor_step
  reanchor_step-Keeps target max_levels =
      search (write_rules, slide_up-Keeps, slide_down-Keeps, anchor-Keeps) depth 12

  -- If `reanchor_step` succeeds, the fee counter is unchanged, and the totals of base and of
  -- quote over all 128 seats do not grow and are the same modulo 2^64.
  pub reanchor_step-Conserves :
      (target max_levels : ℕ) (b b' : Book) (r : ℕ × ℕ)
      → reanchor_step budget target max_levels b ≡ ok (r, b')
      → Conserves b b'
  unfolding conserving
  reanchor_step-Conserves target max_levels b b' r e =
      Post-ok (λ _ t. Conserves b t) ((reanchor_step-Keeps target max_levels).holds b) e

-- If `cancel_order` succeeds, the fee counter is unchanged, and the totals of base and of quote
-- over all 128 seats do not grow and are the same modulo 2^64.
pub cancel_order-Conserves :
    (seat idx expected_seq : ℕ) (b b' : Book)
    → cancel_order seat idx expected_seq b ≡ ok (tt, b')
    → Conserves b b'
unfolding conserving
cancel_order-Conserves seat idx expected_seq b b' e =
    Post-ok (λ _ t. Conserves b t) ((cancel_order-Keeps conserving seat idx expected_seq).holds b) e
