-- ===== src/Bitmap/Laws.antt =====
-- `set` and `clear` change one bit of the occupancy, and keep the summary in step with the leaves.
use native.Mathlib.Decide.{ℕ_discrete}
use solana_orderbook.Base.{
  ℕ, ◌/◌, ◌%◌, ◌<◌, ◌≡◌, refl, ap, Bool, true, false, ◌&&◌, arith, ◌==◌, if◌then◌else◌, update,
  update_self, update_ne,
}
use solana_orderbook.Bitmap.Words.{
  Word, is_zero, with_bit, without_bit, is_zero-of_bit, is_zero_sound, is_zero_of,
}
use solana_orderbook.Bitmap.{Bitmap, get, set, clear}
use solana_orderbook.Bitmap.Scan.{IsConsistent}

-- One leaf bit is written: what the positions show.
write_bit :
    (f : ℕ → Word) (v : Bool) (g : Word) (p q : ℕ)
    → g (q % 64) ≡ (if (q % 64) == (p % 64) then v else f (p / 64) (q % 64))
    → update f (p / 64) g (q / 64) (q % 64) ≡ (if q == p then v else f (q / 64) (q % 64))
unfolding update
write_bit f v g p q e = elim (ℕ_discrete (q / 64) (p / 64)) [
  | yes h ↦ ground (arith, ap (λ (x : ℕ). f x (q % 64)) h)
  | no h ↦ ground arith
]

update-with_bit :
    (f : ℕ → Word) (p q : ℕ)
    → update f (p / 64) (with_bit (p % 64) (f (p / 64))) (q / 64) (q % 64)
      ≡ (if q == p then true else f (q / 64) (q % 64))
unfolding with_bit
update-with_bit f p q = write_bit f true (with_bit (p % 64) (f (p / 64))) p q refl

update-without_bit :
    (f : ℕ → Word) (p q : ℕ)
    → update f (p / 64) (without_bit (p % 64) (f (p / 64))) (q / 64) (q % 64)
      ≡ (if q == p then false else f (q / 64) (q % 64))
unfolding without_bit
update-without_bit f p q = write_bit f false (without_bit (p % 64) (f (p / 64))) p q refl

-- After `set` a tick reads as used exactly if it shares the ring slot of the tick set or was used
-- before.
pub get-set :
    (b : Bitmap) (t u : ℕ) → get (set t b) u ≡ (if u % 8192 == t % 8192 then true else get b u)
unfolding get set
get-set b t u = update-with_bit b.leaves (t % 8192) (u % 8192)

-- After `clear` the ticks of that ring slot read as free and every other reads as before.
pub get-clear :
    (b : Bitmap) (t u : ℕ) → get (clear t b) u ≡ (if u % 8192 == t % 8192 then false else get b u)
unfolding get clear
get-clear b t u = update-without_bit b.leaves (t % 8192) (u % 8192)

-- A bitmap with every bit clear is consistent.
unfoldable pub empty : Bitmap
empty = record { summary = λ s i. false; leaves = λ w i. false }

is_zero-false : is_zero (λ i. false) ≡ true
unfolding is_zero
is_zero-false = refl

pub empty-IsConsistent : IsConsistent empty
unfolding empty
empty-IsConsistent = record { agrees = λ w h. rw is_zero-false }

with_bit-is_zero : (k : ℕ) (w : Word) → k < 64 → is_zero (with_bit k w) ≡ false
with_bit-is_zero k w h = is_zero-of_bit (with_bit k w) k h (unfold with_bit in (ground arith))

-- If every summary bit says whether its leaf word has a bit, it still does after `set`.
pub set-IsConsistent : (b : Bitmap) (t : ℕ) → IsConsistent b → IsConsistent (set t b)
unfolding set
set-IsConsistent b t c = record {
  agrees = λ w small.
      rw (update-with_bit b.summary (t % 8192 / 64) w) (elim (ℕ_discrete w (t % 8192 / 64)) [
        | yes h ↦
            rw (h, update_self b.leaves (t % 8192 / 64) _)
              (rw (with_bit-is_zero (t % 8192 % 64) (b.leaves (t % 8192 / 64)) (omega arith))
                (ground arith))
        | no h ↦ rw (update_ne b.leaves (t % 8192 / 64) w _ h) (ground (arith, c.agrees w small))
      ]);
}

cleared_summary :
    (f : ℕ → Word) (p q : ℕ) (z : Bool)
    → (if z then update f (p / 64) (without_bit (p % 64) (f (p / 64))) else f) (q / 64) (q % 64)
      ≡ (if z && (q == p) then false else f (q / 64) (q % 64))
cleared_summary f p q true = update-without_bit f p q
cleared_summary f p q false = refl

without_bit-is_zero : (k : ℕ) (w : Word) → is_zero w ≡ true → is_zero (without_bit k w) ≡ true
unfolding without_bit
without_bit-is_zero k w e =
    is_zero_of (without_bit k w) (λ i h. ground (arith, is_zero_sound w e i h))

-- If every summary bit says whether its leaf word has a bit, it still does after `clear`.
pub clear-IsConsistent : (b : Bitmap) (t : ℕ) → IsConsistent b → IsConsistent (clear t b)
unfolding clear
clear-IsConsistent b t c = record {
  agrees = λ w small.
      rw
        (cleared_summary b.summary (t % 8192 / 64) w
          (is_zero (without_bit (t % 8192 % 64) (b.leaves (t % 8192 / 64)))))
        (elim (ℕ_discrete w (t % 8192 / 64)) [
          | yes h ↦
              rw (h, update_self b.leaves (t % 8192 / 64) _)
                (ground (
                  arith,
                  c.agrees (t % 8192 / 64) (omega arith),
                  without_bit-is_zero (t % 8192 % 64) (b.leaves (t % 8192 / 64)),
                ))
          | no h ↦ rw (update_ne b.leaves (t % 8192 / 64) w _ h) (ground (arith, c.agrees w small))
        ]);
}
