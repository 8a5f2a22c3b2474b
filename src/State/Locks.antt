-- ===== src/State/Locks.antt =====
-- `lock` and `unlock` of program/src/state.rs against each other.
use solana_orderbook.Base.{◌+◌, ◌<◌, ◌≡◌, ℕ, Bool, true, false, arith, u64_mod, add64_exact}
use solana_orderbook.Exec.{ok}
use solana_orderbook.State.Seats.{Seat, lock, unlock}

-- Every balance of a seat fits a u64 together with the one that it moves to.
pub record IsFunded (s : Seat) : Type 0 where
  pub base : s.base_free + s.base_locked < u64_mod
  pub quote : s.quote_free + s.quote_locked < u64_mod

-- After a `lock` that succeeds, on a seat whose funds of each kind fit a u64, `unlock` of the
-- same atoms succeeds and gives the seat back as it was.
pub unlock-lock :
    (base : Bool) (atoms : ℕ) (s t : Seat)
    → IsFunded s
    → lock base atoms s ≡ ok t
    → unlock base atoms t ≡ ok s
unfolding lock unlock
unlock-lock true atoms s t f e =
    ground (arith, add64_exact s.base_locked atoms, add64_exact t.base_free atoms)
unlock-lock false atoms s t f e =
    ground (arith, add64_exact s.quote_locked atoms, add64_exact t.quote_free atoms)
