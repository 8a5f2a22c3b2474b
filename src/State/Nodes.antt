-- ===== src/State/Nodes.antt =====
-- `Level` and `OrderNode`. The `maker` field holds the seat in its low 15 bits and the side in the
-- highest.
use solana_orderbook.Base.{
  ℕ, ◌+◌, ◌/◌, ◌%◌, ◌^◌, ◌≡◌, ◌<◌, Bool, not, ◌&&◌, ◌==◌, leb, if◌then◌else◌, arith, add64, sub64,
}
use solana_orderbook.State.{Side, bid, ask}

pub record Level : Type 0 where
  pub head : ℕ
  pub tail : ℕ
  pub total_lots : ℕ

unfoldable pub add_lots : ℕ → Level → Level
add_lots lots l = record l { total_lots = add64 l.total_lots lots }

unfoldable pub sub_lots : ℕ → Level → Level
sub_lots lots l = record l { total_lots = sub64 l.total_lots lots }

unfoldable pub zero_level : Level
zero_level = record { head = 0; tail = 0; total_lots = 0 }

pub record OrderNode : Type 0 where
  pub prev : ℕ
  pub next : ℕ
  pub maker_prev : ℕ
  pub maker_next : ℕ
  pub tick : ℕ
  pub maker_bits : ℕ
  pub lots : ℕ
  pub expiry_slot : ℕ
  pub seq : ℕ

-- `& MAKER_INDEX_MASK`, and the test of `ASK_SIDE_FLAG`.
unfoldable pub maker : OrderNode → ℕ
maker n = n.maker_bits % 2 ^ 15

unfoldable pub side : OrderNode → Side
side n = if (n.maker_bits / 2 ^ 15 % 2) == 0 then bid else ask

unfoldable pub is_expired : OrderNode → ℕ → Bool
is_expired n slot = not (n.expiry_slot == 0) && leb n.expiry_slot slot

unfoldable pub side_flag : Side → ℕ
side_flag bid = 0
side_flag ask = 2 ^ 15

unfoldable pub set_maker_and_side : ℕ → Side → OrderNode → OrderNode
unfolding side_flag
set_maker_and_side m s n = record n { maker_bits = m % 2 ^ 15 + side_flag s }

-- A seat index below 2^15 that is packed with a side is read back.
pub maker-set_maker_and_side :
    (m : ℕ) (s : Side) (n : OrderNode) → m < 2 ^ 15 → maker (set_maker_and_side m s n) ≡ m
unfolding maker set_maker_and_side
maker-set_maker_and_side m bid n h = omega arith
maker-set_maker_and_side m ask n h = omega arith

-- A side that is packed with a seat index is read back.
pub side-set_maker_and_side :
    (m : ℕ) (s : Side) (n : OrderNode) → side (set_maker_and_side m s n) ≡ s
unfolding side set_maker_and_side
side-set_maker_and_side m bid n = ground arith
side-set_maker_and_side m ask n = ground arith
