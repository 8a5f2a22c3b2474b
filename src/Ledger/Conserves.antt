-- ===== src/Ledger/Conserves.antt =====
-- The funds that the program owes, before and after an operation of program/src/state.rs.
use solana_orderbook.Base.{ℕ, ◌≤◌, ◌<◌, ◌≡◌, refl, Bool, true, false, arith, u64_mod, add64, ◌%◌}
use solana_orderbook.Exec.{ok}
use solana_orderbook.State.{Side, bid, ask}
use solana_orderbook.State.Header.{advance_order_seq}
use solana_orderbook.State.Seats.{Seat, lock, unlock}
use solana_orderbook.Book.{Book, with_header, with_pool, with_level, with_seat, with_bitmap}
use solana_orderbook.Book.Pool.{set_free_list}
use solana_orderbook.Bitmap.{Bitmap, set, clear}
use solana_orderbook.Book.Frame.{Frame, SameFunds}
use solana_orderbook.Ledger.{
  base_of, quote_of, total_base, total_quote, total_base-with_seat, total_quote-with_seat,
}

-- `b'` owes what `b` owed: no total has grown, and each is the same modulo 2^64, so one that fitted a
-- u64 is the same. (Credits wrap: above that an atom may be lost, never made.)
pub record Conserves (b b' : Book) : Type 0 where
  pub fees : b'.header.fees_accrued_quote ≡ b.header.fees_accrued_quote
  pub base_le : total_base b' ≤ total_base b
  pub base_eq : total_base b' % u64_mod ≡ total_base b % u64_mod
  pub quote_le : total_quote b' ≤ total_quote b
  pub quote_eq : total_quote b' % u64_mod ≡ total_quote b % u64_mod

-- The same of one seat.
pub record Moves (s t : Seat) : Type 0 where
  pub base_le : base_of t ≤ base_of s
  pub base_eq : base_of t % u64_mod ≡ base_of s % u64_mod
  pub quote_le : quote_of t ≤ quote_of s
  pub quote_eq : quote_of t % u64_mod ≡ quote_of s % u64_mod

with_seat-Conserves :
    (i : ℕ) (s : Seat) (b : Book) → i < 128 → Moves (b.seats i) s → Conserves b (with_seat i s b)
with_seat-Conserves i s b small m = record {
  fees = unfold with_seat in refl;
  base_le = omega (arith, total_base-with_seat i s b small, m.base_le);
  base_eq = omega (arith, total_base-with_seat i s b small, m.base_eq);
  quote_le = omega (arith, total_quote-with_seat i s b small, m.quote_le);
  quote_eq = omega (arith, total_quote-with_seat i s b small, m.quote_eq);
}

pub lock-Moves : (base : Bool) (atoms : ℕ) (s t : Seat) → lock base atoms s ≡ ok t → Moves s t
unfolding lock add64
lock-Moves true atoms s t e = record {
  base_le = ground arith;
  base_eq = ground arith;
  quote_le = ground arith;
  quote_eq = ground arith;
}
lock-Moves false atoms s t e = record {
  base_le = ground arith;
  base_eq = ground arith;
  quote_le = ground arith;
  quote_eq = ground arith;
}

pub unlock-Moves : (base : Bool) (atoms : ℕ) (s t : Seat) → unlock base atoms s ≡ ok t → Moves s t
unfolding unlock add64
unlock-Moves true atoms s t e = record {
  base_le = ground arith;
  base_eq = ground arith;
  quote_le = ground arith;
  quote_eq = ground arith;
}
unlock-Moves false atoms s t e = record {
  base_le = ground arith;
  base_eq = ground arith;
  quote_le = ground arith;
  quote_eq = ground arith;
}

pub SameFunds-Moves : (s t : Seat) → SameFunds s t → Moves s t
SameFunds-Moves s t f = omega arith

-- A book with the same seats and the same fee counter.
pub same_seats-Conserves :
    (b b' : Book)
    → b'.header.fees_accrued_quote ≡ b.header.fees_accrued_quote
    → b'.seats ≡ b.seats
    → Conserves b b'
unfolding total_base total_quote
same_seats-Conserves b b' f e = record {
  fees = f;
  base_le = rw e (omega arith);
  base_eq = rw e refl;
  quote_le = rw e (omega arith);
  quote_eq = rw e refl;
}

pub Conserves-refl : (b : Book) → Conserves b b
Conserves-refl b = same_seats-Conserves b b refl refl

pub Conserves-trans : (b c d : Book) → Conserves b c → Conserves c d → Conserves b d
Conserves-trans b c d p q = record {
  fees = omega (arith, p.fees, q.fees);
  base_le = omega (arith, p.base_le, q.base_le);
  base_eq = omega (arith, p.base_eq, q.base_eq);
  quote_le = omega (arith, p.quote_le, q.quote_le);
  quote_eq = omega (arith, p.quote_eq, q.quote_eq);
}

with_bitmap-Conserves :
    (s : Side) (f : Bitmap → Bitmap) (b : Book) → Conserves b (with_bitmap s f b)
unfolding with_bitmap
with_bitmap-Conserves bid f b = same_seats-Conserves b _ refl refl
with_bitmap-Conserves ask f b = same_seats-Conserves b _ refl refl

-- The frame for funds.
unfoldable pub conserving : Frame
unfolding with_pool with_level with_header with_seat set_free_list advance_order_seq
    with_seat-Conserves lock-Moves unlock-Moves SameFunds-Moves same_seats-Conserves
    with_bitmap-Conserves
conserving = record {
  order = record { Rel = Conserves; rel_refl = Conserves-refl; rel_trans = Conserves-trans };
  on_pool = λ i n b. same_seats-Conserves b _ refl refl;
  on_level = λ i l b. same_seats-Conserves b _ refl refl;
  on_set = λ s tick b. with_bitmap-Conserves s (set tick) b;
  on_clear = λ s tick b. with_bitmap-Conserves s (clear tick) b;
  on_free_list = λ head count b. same_seats-Conserves b _ refl refl;
  on_order_seq = λ b. same_seats-Conserves b _ refl refl;
  on_links = λ i s b small f. with_seat-Conserves i s b small (SameFunds-Moves (b.seats i) s f);
  on_lock = λ i base atoms s b small e.
      with_seat-Conserves i s b small (lock-Moves base atoms (b.seats i) s e);
  on_unlock = λ i base atoms s b small e.
      with_seat-Conserves i s b small (unlock-Moves base atoms (b.seats i) s e);
}
