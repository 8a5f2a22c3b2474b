-- ===== src/Book/Index.antt =====
-- The two bitmaps of a book, before and after an operation of program/src/state.rs.
use solana_orderbook.Base.{ℕ, ◌≡◌, Bool, List}
use solana_orderbook.Exec.{ok, modify}
use solana_orderbook.Exec.Keeps.{Post-ok, Keeps, Keeps-modify}
use solana_orderbook.State.{Side, bid, ask}
use solana_orderbook.Bitmap.{Bitmap}
use solana_orderbook.Bitmap.Scan.{IsConsistent}
use solana_orderbook.Bitmap.Laws.{set-IsConsistent, clear-IsConsistent}
use solana_orderbook.Book.{Book, with_header, with_pool, with_level, with_seat, with_bitmap}
use solana_orderbook.Book.Orders.{upsert_order, cancel_order}
use solana_orderbook.Book.MassQuote.{mass_quote_side}
use solana_orderbook.Book.Hygiene.{set_anchor_tick, reanchor_step, reap_expired}
use solana_orderbook.Book.Frame.{Frame}
use solana_orderbook.Book.Frame.Lists.{write_rules}
use solana_orderbook.Book.Frame.Lifecycle.{upsert_order-Keeps, cancel_order-Keeps}
use solana_orderbook.Book.Frame.Bulk.{
  mass_quote_side-Keeps, slide_up-Keeps, slide_down-Keeps, reap_expired-Keeps,
}

pub record IsIndexed (b : Book) : Type 0 where
  pub bids : IsConsistent b.bid_bitmap
  pub asks : IsConsistent b.ask_bitmap

with_bitmap-IsIndexed :
    (s : Side) (f : Bitmap → Bitmap) (b : Book)
    → ((m : Bitmap) → IsConsistent m → IsConsistent (f m))
    → IsIndexed b
    → IsIndexed (with_bitmap s f b)
unfolding with_bitmap
with_bitmap-IsIndexed bid f b h i = record { bids = h b.bid_bitmap i.bids; asks = i.asks }
with_bitmap-IsIndexed ask f b h i = record { bids = i.bids; asks = h b.ask_bitmap i.asks }

-- A write elsewhere.
same :
    (b b' : Book)
    → b'.bid_bitmap ≡ b.bid_bitmap
    → b'.ask_bitmap ≡ b.ask_bitmap
    → IsIndexed b
    → IsIndexed b'
same b b' p q i = record { bids = rw p i.bids; asks = rw q i.asks }

unfoldable pub indexing : Frame
unfolding with_pool with_level with_header with_seat with_bitmap-IsIndexed
indexing = record {
  order = record {
    Rel = λ b b'. IsIndexed b → IsIndexed b';
    rel_refl = λ b i. i;
    rel_trans = λ b c d p q i. q (p i);
  };
  on_pool = λ i n b x. record { bids = x.bids; asks = x.asks };
  on_level = λ i l b x. record { bids = x.bids; asks = x.asks };
  on_set = λ s tick b. with_bitmap-IsIndexed s _ b λ m. set-IsConsistent m tick;
  on_clear = λ s tick b. with_bitmap-IsIndexed s _ b λ m. clear-IsConsistent m tick;
  on_free_list = λ head count b x. record { bids = x.bids; asks = x.asks };
  on_order_seq = λ b x. record { bids = x.bids; asks = x.asks };
  on_links = λ i s b small f x. record { bids = x.bids; asks = x.asks };
  on_lock = λ i base atoms s b small e x. record { bids = x.bids; asks = x.asks };
  on_unlock = λ i base atoms s b small e x. record { bids = x.bids; asks = x.asks };
}

module _ (budget : ℕ) where
  anchor-Keeps : (a : ℕ) → Keeps indexing.order (modify (with_header (set_anchor_tick a)))
  unfolding with_header set_anchor_tick indexing
  anchor-Keeps a = Keeps-modify _ λ b x. record { bids = x.bids; asks = x.asks }

  reanchor_step-Keeps :
      (target max_levels : ℕ) → Keeps indexing.order (reanchor_step budget target max_levels)
  unfolding reanchor_step
  reanchor_step-Keeps target max_levels =
      search (write_rules, slide_up-Keeps, slide_down-Keeps, anchor-Keeps) depth 12

  -- If `reanchor_step` succeeds on a book whose two bitmaps are consistent, they are consistent
  -- in the book that it leaves.
  pub reanchor_step-IsIndexed :
      (target max_levels : ℕ) (b b' : Book) (r : ℕ × ℕ)
      → reanchor_step budget target max_levels b ≡ ok (r, b')
      → IsIndexed b
      → IsIndexed b'
  unfolding indexing
  reanchor_step-IsIndexed target max_levels b b' r e =
      Post-ok (λ _ t. IsIndexed b → IsIndexed t) ((reanchor_step-Keeps target max_levels).holds b) e

  -- If `upsert_order` succeeds on a book whose two bitmaps are consistent, they are consistent in
  -- the book that it leaves.
  pub upsert_order-IsIndexed :
      (s : Side) (tick lots seat expiry_slot : ℕ) (slide : Bool) (b b' : Book) (idx : ℕ)
      → upsert_order budget s tick lots seat expiry_slot slide b ≡ ok (idx, b')
      → IsIndexed b
      → IsIndexed b'
  unfolding indexing
  upsert_order-IsIndexed s tick lots seat expiry_slot slide b b' idx e =
      Post-ok (λ _ t. IsIndexed b → IsIndexed t)
        ((upsert_order-Keeps indexing budget s tick lots seat expiry_slot slide).holds b) e

  -- If `mass_quote_side` succeeds on a book whose two bitmaps are consistent, they are consistent
  -- in the book that it leaves.
  pub mass_quote_side-IsIndexed :
      (seat : ℕ) (s : Side) (payload : List ℕ) (count expiry_slot : ℕ) (cursor cursor' : ℕ × ℕ)
      (b b' : Book)
      → mass_quote_side budget seat s payload count expiry_slot cursor b ≡ ok (cursor', b')
      → IsIndexed b
      → IsIndexed b'
  unfolding indexing
  mass_quote_side-IsIndexed seat s payload count expiry_slot cursor cursor' b b' e =
      Post-ok (λ _ t. IsIndexed b → IsIndexed t)
        ((mass_quote_side-Keeps indexing budget seat s payload count expiry_slot cursor).holds b) e

  -- If `reap_expired` succeeds on a book whose two bitmaps are consistent, they are consistent in
  -- the book that it leaves.
  pub reap_expired-IsIndexed :
      (s : Side) (start_tick max_count slot : ℕ) (b b' : Book) (reaped : ℕ)
      → reap_expired budget s start_tick max_count slot b ≡ ok (reaped, b')
      → IsIndexed b
      → IsIndexed b'
  unfolding indexing
  reap_expired-IsIndexed s start_tick max_count slot b b' reaped e =
      Post-ok (λ _ t. IsIndexed b → IsIndexed t)
        ((reap_expired-Keeps indexing budget s start_tick max_count slot).holds b) e

-- If `cancel_order` succeeds on a book whose two bitmaps are consistent, they are consistent in
-- the book that it leaves.
pub cancel_order-IsIndexed :
    (seat idx expected_seq : ℕ) (b b' : Book)
    → cancel_order seat idx expected_seq b ≡ ok (tt, b')
    → IsIndexed b
    → IsIndexed b'
unfolding indexing
cancel_order-IsIndexed seat idx expected_seq b b' e =
    Post-ok (λ _ t. IsIndexed b → IsIndexed t)
      ((cancel_order-Keeps indexing seat idx expected_seq).holds b) e
