-- ===== src/Ledger/Separate.antt =====
-- The funds of each trader, before and after an operation of program/src/state.rs.
use native.Mathlib.Decide.{ℕ_discrete}
use solana_orderbook.Base.{
  ℕ, ◌≡◌, ◌∙◌, refl, Bool, true, false, List, arith, update_self, update_ne,
}
use solana_orderbook.Exec.{ok}
use solana_orderbook.Exec.Keeps.{Post-ok}
use solana_orderbook.State.{Side, bid, ask}
use solana_orderbook.State.Header.{advance_order_seq}
use solana_orderbook.State.Seats.{Seat, lock, unlock}
use solana_orderbook.Book.{Book, with_header, with_pool, with_level, with_seat, with_bitmap}
use solana_orderbook.Book.Pool.{set_free_list}
use solana_orderbook.Bitmap.{Bitmap}
use solana_orderbook.Book.Orders.{upsert_order, cancel_order}
use solana_orderbook.Book.MassQuote.{mass_quote_side}
use solana_orderbook.Book.Frame.{Frame}
use solana_orderbook.Book.Frame.Lifecycle.{upsert_order-Keeps, cancel_order-Keeps}
use solana_orderbook.Book.Frame.Bulk.{mass_quote_side-Keeps}
use solana_orderbook.Ledger.Conserves.{Moves, lock-Moves, unlock-Moves, SameFunds-Moves}

-- The seat has its owner and its funds, free or locked together.
pub record Retains (s t : Seat) : Type 0 where
  pub owner : t.owner ≡ s.owner
  pub funds : Moves s t

Retains-refl : (s : Seat) → Retains s s
Retains-refl s = record {
  owner = refl;
  funds = record { base_le = omega arith; base_eq = refl; quote_le = omega arith; quote_eq = refl };
}

Retains-trans : (s t u : Seat) → Retains s t → Retains t u → Retains s u
Retains-trans s t u p q = record {
  owner = q.owner ∙ p.owner;
  funds = record {
    base_le = omega (arith, p.funds.base_le, q.funds.base_le);
    base_eq = omega (arith, p.funds.base_eq, q.funds.base_eq);
    quote_le = omega (arith, p.funds.quote_le, q.funds.quote_le);
    quote_eq = omega (arith, p.funds.quote_eq, q.funds.quote_eq);
  };
}

abbrev pub Apart : Book → Book → Type 0
Apart b b' = (i : ℕ) → Retains (b.seats i) (b'.seats i)

with_seat-Apart : (i : ℕ) (s : Seat) (b : Book) → Retains (b.seats i) s → Apart b (with_seat i s b)
unfolding with_seat
with_seat-Apart i s b r j = elim (ℕ_discrete j i) [
  | yes e ↦ rw (e, update_self b.seats i s) r
  | no e ↦ rw (update_ne b.seats i j s e) (Retains-refl (b.seats j))
]

with_bitmap-Apart : (s : Side) (f : Bitmap → Bitmap) (b : Book) → Apart b (with_bitmap s f b)
unfolding with_bitmap
with_bitmap-Apart bid f b i = Retains-refl (b.seats i)
with_bitmap-Apart ask f b i = Retains-refl (b.seats i)

lock-owner : (base : Bool) (atoms : ℕ) (s t : Seat) → lock base atoms s ≡ ok t → t.owner ≡ s.owner
unfolding lock
lock-owner true atoms s t e = ground arith
lock-owner false atoms s t e = ground arith

unlock-owner :
    (base : Bool) (atoms : ℕ) (s t : Seat) → unlock base atoms s ≡ ok t → t.owner ≡ s.owner
unfolding unlock
unlock-owner true atoms s t e = ground arith
unlock-owner false atoms s t e = ground arith

unfoldable separating : Frame
unfolding with_pool with_level with_header set_free_list advance_order_seq
separating = record {
  order = record {
    Rel = Apart;
    rel_refl = λ b i. Retains-refl (b.seats i);
    rel_trans = λ b c d p q i. Retains-trans (b.seats i) (c.seats i) (d.seats i) (p i) (q i);
  };
  on_pool = λ i n b j. Retains-refl (b.seats j);
  on_level = λ i l b j. Retains-refl (b.seats j);
  on_set = λ s tick b. with_bitmap-Apart s _ b;
  on_clear = λ s tick b. with_bitmap-Apart s _ b;
  on_free_list = λ head count b j. Retains-refl (b.seats j);
  on_order_seq = λ b j. Retains-refl (b.seats j);
  on_links = λ i s b small f.
      with_seat-Apart i s b (record { owner = f.owner; funds = SameFunds-Moves (b.seats i) s f });
  on_lock = λ i base atoms s b small e. with_seat-Apart i s b (record {
    owner = lock-owner base atoms (b.seats i) s e;
    funds = lock-Moves base atoms (b.seats i) s e;
  });
  on_unlock = λ i base atoms s b small e. with_seat-Apart i s b (record {
    owner = unlock-owner base atoms (b.seats i) s e;
    funds = unlock-Moves base atoms (b.seats i) s e;
  });
}

-- If `upsert_order` succeeds, every seat has the owner it had, and its funds of base and of
-- quote, free and locked together, do not grow and are the same modulo 2^64: nothing moves from
-- one trader to another.
pub upsert_order-Apart :
    (budget : ℕ) (s : Side) (tick lots seat expiry_slot : ℕ) (slide : Bool) (b b' : Book) (idx : ℕ)
    → upsert_order budget s tick lots seat expiry_slot slide b ≡ ok (idx, b')
    → Apart b b'
unfolding separating
upsert_order-Apart budget s tick lots seat expiry_slot slide b b' idx e =
    Post-ok (λ _ t. Apart b t)
      ((upsert_order-Keeps separating budget s tick lots seat expiry_slot slide).holds b) e

-- If `mass_quote_side` succeeds, every seat has the owner it had, and its funds of base and of
-- quote, free and locked together, do not grow and are the same modulo 2^64: nothing moves from
-- one trader to another.
pub mass_quote_side-Apart :
    (budget seat : ℕ) (s : Side) (payload : List ℕ) (count expiry_slot : ℕ) (cursor cursor' : ℕ × ℕ)
    (b b' : Book)
    → mass_quote_side budget seat s payload count expiry_slot cursor b ≡ ok (cursor', b')
    → Apart b b'
unfolding separating
mass_quote_side-Apart budget seat s payload count expiry_slot cursor cursor' b b' e =
    Post-ok (λ _ t. Apart b t)
      ((mass_quote_side-Keeps separating budget seat s payload count expiry_slot cursor).holds b) e

-- If `cancel_order` succeeds, every seat has the owner it had, and its funds of base and of
-- quote, free and locked together, do not grow and are the same modulo 2^64: nothing moves from
-- one trader to another.
pub cancel_order-Apart :
    (seat idx expected_seq : ℕ) (b b' : Book)
    → cancel_order seat idx expected_seq b ≡ ok (tt, b')
    → Apart b b'
unfolding separating
cancel_order-Apart seat idx expected_seq b b' e =
    Post-ok (λ _ t. Apart b t) ((cancel_order-Keeps separating seat idx expected_seq).holds b) e
