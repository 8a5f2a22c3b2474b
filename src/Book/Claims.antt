-- ===== src/Book/Claims.antt =====
-- `claim_seat` and `check_seat` of program/src/state.rs.
use solana_orderbook.Base.{
  ℕ, zero, suc, ◌+◌, ◌≡◌, ◌≢◌, ap, lt→ltb, ◌≤◌, ◌<◌, subst, inl, inr, true, false, Bool-cases,
  Option, none, some, arith, update_self, update_ne,
}
use native.Mathlib.Decide.{dec_lt}
use solana_orderbook.State.Seats.{Seat, is_free}
use solana_orderbook.Exec.{ok, pure, raise, fail, gets, modify, ◌>>=◌}
use solana_orderbook.Exec.Keeps.{Post, Post-ok}
use solana_orderbook.Book.{Book, with_seat, seat_at, put_seat, edit_seat}
use solana_orderbook.Book.SeatTable.{first_free, grant, grant_at, claim_seat, check_seat}

-- The lowest free index from `i` among `rounds`.
abbrev pub IsFirstFree : ℕ → ℕ → (ℕ → Seat) → Option ℕ → Type 0
IsFirstFree rounds i seats none = (j : ℕ) → i ≤ j → j < i + rounds → is_free (seats j) ≡ false
IsFirstFree rounds i seats (some k) =
    (i ≤ k)
    × (k < i + rounds)
    × (is_free (seats k) ≡ true)
    × ((j : ℕ) → i ≤ j → j < k → is_free (seats j) ≡ false)

-- `first_free` finds the lowest free seat of its range, and none only if every seat is taken.
pub first_free-IsFirstFree :
    (rounds i : ℕ) (seats : ℕ → Seat) → IsFirstFree rounds i seats (first_free rounds i seats)
unfolding first_free
first_free-IsFirstFree zero i seats = λ j lo hi. ground arith
first_free-IsFirstFree (suc rounds) i seats = elim (Bool-cases (is_free (seats i))) [
  | inl e ↦ rw e (omega arith, omega arith, e, λ j lo hi. ground arith)
  | inr e ↦
      rw e (skip (first_free rounds (i + 1) seats) e (first_free-IsFirstFree rounds (i + 1) seats))
]
  where
    at : (j : ℕ) → is_free (seats i) ≡ false → i ≡ j → is_free (seats j) ≡ false
    at j e p = subst (λ (x : ℕ). is_free (seats x) ≡ false) p e

    skip :
        (o : Option ℕ)
        → is_free (seats i) ≡ false
        → IsFirstFree rounds (i + 1) seats o
        → IsFirstFree (suc rounds) i seats o
    skip none e l = λ j lo hi. elim (dec_lt i j) [
      | yes p ↦ l j (omega arith) (omega arith)
      | no p ↦ at j e (omega arith)
    ]
    skip (some k) e (x, y, z, l) = (
      omega arith,
      omega arith,
      z,
      λ j lo hi. elim (dec_lt i j) [
        | yes p ↦ l j (omega arith) (omega arith)
        | no p ↦ at j e (omega arith)
      ],
    )

-- What a claim has done.
pub record Claims (owner : ℕ) (b : Book) (i : ℕ) (b' : Book) : Type 0 where
  pub first : IsFirstFree 128 0 b.seats (some i)
  pub passes : check_seat i owner b' ≡ ok (tt, b')
  pub others : (j : ℕ) → j ≢ i → b'.seats j ≡ b.seats j

pub check_seat-owner :
    (i owner : ℕ) (b : Book)
    → i < 128
    → (b.seats i).owner ≡ owner
    → check_seat i owner b ≡ ok (tt, b)
unfolding check_seat seat_at ◌>>=◌ gets fail pure raise
check_seat-owner i owner b small e = ground arith

grant_at-Claims :
    (owner : ℕ) (b : Book) (o : Option ℕ)
    → IsFirstFree 128 0 b.seats o
    → Post (λ i t. Claims owner b i t) (grant_at owner o b)
unfolding grant_at edit_seat seat_at put_seat with_seat grant ◌>>=◌ gets modify raise fail pure
grant_at-Claims owner b none l = tt
grant_at-Claims owner b (some i) (x, y, z, l) = rw (lt→ltb i 128 (omega arith)) (record {
  first = (x, y, z, l);
  passes = check_seat-owner i owner _ (omega arith) (ap (λ s. s.owner) (update_self b.seats i _));
  others = λ j h. update_ne b.seats i j _ h;
})

-- If `claim_seat` succeeds, it has granted the lowest free seat, `check_seat` accepts the owner
-- on it, and every other seat is as before.
pub claim_seat-Claims :
    (owner i : ℕ) (b b' : Book) → claim_seat owner b ≡ ok (i, b') → Claims owner b i b'
unfolding claim_seat ◌>>=◌ gets
claim_seat-Claims owner i b b' e =
    Post-ok (λ i t. Claims owner b i t)
      (grant_at-Claims owner b (first_free 128 0 b.seats) (first_free-IsFirstFree 128 0 b.seats)) e
