-- ===== src/Bitmap.antt =====
-- `Bitmap` of program/src/state.rs: two-level occupancy over the ring of 8,192 ticks. The words are
-- bit sets, so `|`, `&` and the shifted masks act bit by bit (Bitmap/Words).
pub mod Words
pub mod Scan
pub mod Laws
pub mod Window
use solana_orderbook.Base.{
  ℕ, zero, suc, ◌+◌, ◌-◌, ◌*◌, ◌/◌, ◌%◌, min, Bool, true, false, ◌&&◌, not, Option, none, some,
  ◌==◌, ltb, leb, if◌then◌else◌, update, add32, sub32, add64, sub64,
}
use solana_orderbook.State.Constants.{window_ticks, window_mask, bitmap_summary_words}
use Words.{Word, is_zero, with_bit, without_bit, from_bit, up_to_bit, trailing_zeros, leading_zeros}

pub record Bitmap : Type 0 where
  pub summary : ℕ → Word
  pub leaves : ℕ → Word

-- `(tick & WINDOW_MASK) as usize`.
abbrev pub position : ℕ → ℕ
position tick = tick % window_ticks

-- The bit at a physical position.
abbrev pub occupied : Bitmap → ℕ → Bool
occupied b pos = b.leaves (pos / 64) (pos % 64)

unfoldable pub get : Bitmap → ℕ → Bool
get b tick = occupied b (position tick)

unfoldable pub set : ℕ → Bitmap → Bitmap
set tick b =
    let pos = position tick in
    let w = pos / 64 in
    let s = w / 64 in
    record {
      leaves = update b.leaves w (with_bit (pos % 64) (b.leaves w));
      summary = update b.summary s (with_bit (w % 64) (b.summary s));
    }

unfoldable pub clear : ℕ → Bitmap → Bitmap
clear tick b =
    let pos = position tick in
    let w = pos / 64 in
    let s = w / 64 in
    let leaf = without_bit (pos % 64) (b.leaves w) in
    record {
      leaves = update b.leaves w leaf;
      summary =
          if is_zero leaf
          then update b.summary s (without_bit (w % 64) (b.summary s))
          else b.summary;
    }

-- `if p < to { Some(p) } else { None }`.
unfoldable pub below : ℕ → ℕ → Option ℕ
below to p = if ltb p to then some p else none

-- The `while` loop of `scan_up`, over the leaf words `w` to `last_word`.
unfoldable pub scan_up_words : ℕ → Bitmap → ℕ → ℕ → ℕ → Option ℕ
scan_up_words zero b to last_word w = none
scan_up_words (suc rounds) b to last_word w =
    let s = w / 64 in
    let sm = from_bit (w % 64) (b.summary s) in
    let rest = scan_up_words rounds b to last_word ((s + 1) * 64) in
    let cand = s * 64 + trailing_zeros sm in
    if leb w last_word
    then (if is_zero sm
        then rest
        else (if ltb last_word cand
            then none
            else below to (cand * 64 + trailing_zeros (b.leaves cand))))
    else none

-- Two summary words, and the round that leaves the loop.
abbrev pub scan_rounds : ℕ
scan_rounds = bitmap_summary_words + 1

unfoldable pub scan_up : Bitmap → ℕ → ℕ → Option ℕ
scan_up b from to =
    let first_word = from / 64 in
    let m = from_bit (from % 64) (b.leaves first_word) in
    if leb to from
    then none
    else (if is_zero m
        then scan_up_words scan_rounds b to ((to - 1) / 64) (first_word + 1)
        else below to (first_word * 64 + trailing_zeros m))

-- `if p >= down_to { Some(p) } else { None }`.
unfoldable pub at_least : ℕ → ℕ → Option ℕ
at_least down_to p = if leb down_to p then some p else none

-- The `loop` of `scan_down`.
unfoldable pub scan_down_words : ℕ → Bitmap → ℕ → ℕ → Option ℕ
scan_down_words zero b down_to w = none
scan_down_words (suc rounds) b down_to w =
    let s = w / 64 in
    let sm = up_to_bit (w % 64) (b.summary s) in
    let down_word = down_to / 64 in
    let rest = scan_down_words rounds b down_to (s * 64 - 1) in
    let cand = s * 64 + 63 - leading_zeros sm in
    if is_zero sm
    then (if s == 0 then none else (if ltb (s * 64 - 1) down_word then none else rest))
    else (if ltb cand down_word
        then none
        else at_least down_to (cand * 64 + 63 - leading_zeros (b.leaves cand)))

unfoldable pub scan_down : Bitmap → ℕ → ℕ → Option ℕ
scan_down b from down_to =
    let first_word = from / 64 in
    let m = up_to_bit (from % 64) (b.leaves first_word) in
    if is_zero m
    then (if first_word == 0
        then none
        else scan_down_words bitmap_summary_words b down_to (first_word - 1))
    else at_least down_to (first_word * 64 + 63 - leading_zeros m)

-- The end of `next_at_or_after`: the ticks behind the physical end of the array.
unfoldable pub next_wrapped : Bitmap → ℕ → ℕ → ℕ → Option ℕ
next_wrapped b from ahead remaining =
    if ltb 0 remaining
    then (elim (scan_up b 0 remaining) [ some p ↦ some (add32 (add32 from ahead) p) | none ↦ none ])
    else none

-- The search of `next_at_or_after` over the `count` ticks from `from`.
unfoldable pub next_in : Bitmap → ℕ → ℕ → Option ℕ
next_in b from count =
    let start_pos = position from in
    let seg_end = min window_ticks (add64 start_pos count) in
    let ahead = seg_end - start_pos in
    elim (scan_up b start_pos seg_end) [
      | some p ↦ some (add32 from (sub64 p start_pos))
      | none ↦ next_wrapped b from ahead (sub64 count ahead)
    ]

unfoldable pub next_at_or_after : Bitmap → ℕ → ℕ → Option ℕ
next_at_or_after b anchor from =
    let rel = sub32 from anchor in next_in b from (sub64 window_ticks rel)

-- The end of `prev_at_or_before`.
unfoldable pub prev_wrapped : Bitmap → ℕ → ℕ → ℕ → Option ℕ
prev_wrapped b from start_pos remaining =
    if ltb 0 remaining
    then (elim (scan_down b (window_ticks - 1) (sub64 window_ticks remaining)) [
      | some p ↦ some (sub32 (sub32 from (start_pos + 1)) (sub64 (window_ticks - 1) p))
      | none ↦ none
    ])
    else none

-- The search of `prev_at_or_before` over the `count` ticks down from `from`.
unfoldable pub prev_in : Bitmap → ℕ → ℕ → Option ℕ
prev_in b from count =
    let start_pos = position from in
    let seg_start = start_pos + 1 - min count (start_pos + 1) in
    elim (scan_down b start_pos seg_start) [
      | some p ↦ some (sub32 from (sub64 start_pos p))
      | none ↦ prev_wrapped b from start_pos (sub64 count (start_pos + 1 - seg_start))
    ]

unfoldable pub prev_at_or_before : Bitmap → ℕ → ℕ → Option ℕ
prev_at_or_before b anchor from = let rel = sub32 from anchor in prev_in b from (rel + 1)

-- Best ask.
unfoldable pub lowest : Bitmap → ℕ → Option ℕ
lowest b anchor = next_at_or_after b anchor anchor

-- Best bid.
unfoldable pub highest : Bitmap → ℕ → Option ℕ
highest b anchor = prev_at_or_before b anchor (add32 anchor window_mask)

unfoldable pub word_empty : Bitmap → ℕ → Bool
word_empty b tick_base = is_zero (b.leaves (position tick_base / 64))
