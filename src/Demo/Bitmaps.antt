-- ===== src/Demo/Bitmaps.antt =====
-- Bitmaps and nodes at concrete values.
use solana_orderbook.Base.{◌≡◌, ◌+◌, ◌%◌, ◌==◌, if◌then◌else◌, true, false, arith}
use solana_orderbook.State.{ask}
use solana_orderbook.State.Nodes.{
  maker-set_maker_and_side, side-set_maker_and_side, maker, side, set_maker_and_side,
}
use solana_orderbook.Bitmap.{Bitmap, get, set, clear, next_at_or_after, prev_at_or_before}
use solana_orderbook.Bitmap.Scan.{IsLowest, IsHighest, IsConsistent}
use solana_orderbook.Bitmap.Window.Next.{next_at_or_after-IsLowest}
use solana_orderbook.Bitmap.Window.Prev.{prev_at_or_before-IsHighest}
use solana_orderbook.Bitmap.Laws.{
  empty, empty-IsConsistent, get-set, get-clear, set-IsConsistent, clear-IsConsistent,
}
use solana_orderbook.Demo.{demo_node}

-- Ticks 100 and 8,200 used; the second lies behind the physical end of the array.
abbrev two : Bitmap
two = set 8200 (set 100 empty)

two-IsConsistent : IsConsistent two
two-IsConsistent =
    set-IsConsistent (set 100 empty) 8200 (set-IsConsistent empty 100 empty-IsConsistent)

set-IsConsistent_example : IsConsistent (set 100 empty)
set-IsConsistent_example = set-IsConsistent empty 100 empty-IsConsistent

clear-IsConsistent_example : IsConsistent (clear 100 empty)
clear-IsConsistent_example = clear-IsConsistent empty 100 empty-IsConsistent

get-set_example :
    get (set 100 empty) 8292 ≡ (if 8292 % 8192 == 100 % 8192 then true else get empty 8292)
get-set_example = get-set empty 100 8292

get-clear_example :
    get (clear 100 two) 8200 ≡ (if 8200 % 8192 == 100 % 8192 then false else get two 8200)
get-clear_example = get-clear two 100 8200

next_at_or_after-IsLowest_example : IsLowest (get two) 101 (64 + 8192) (next_at_or_after two 64 101)
next_at_or_after-IsLowest_example =
    next_at_or_after-IsLowest two 64 101 two-IsConsistent (omega arith) (omega arith) (omega arith)

prev_at_or_before-IsHighest_example : IsHighest (get two) 8199 64 (prev_at_or_before two 64 8199)
prev_at_or_before-IsHighest_example =
    prev_at_or_before-IsHighest two 64 8199 two-IsConsistent (omega arith) (omega arith)
      (omega arith)

maker-set_maker_and_side_example : maker (set_maker_and_side 7 ask (demo_node 1)) ≡ 7
maker-set_maker_and_side_example = maker-set_maker_and_side 7 ask (demo_node 1) (omega arith)

side-set_maker_and_side_example : side (set_maker_and_side 7 ask (demo_node 1)) ≡ ask
side-set_maker_and_side_example = side-set_maker_and_side 7 ask (demo_node 1)
