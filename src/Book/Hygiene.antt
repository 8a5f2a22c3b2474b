-- ===== src/Book/Hygiene.antt =====
-- Moving the price window and reaping expired orders.
use solana_orderbook.Base.{
  ℕ, Bool, ◌-◌, ◌*◌, ◌/◌, min, max, not, ◌&&◌, ◌||◌, Option, none, some, ◌==◌, ltb, leb,
  if◌then◌else◌, add32, sub32,
}
use solana_orderbook.Exec.{pure, gets, modify, ◌>>=◌, ◌>>◌, Step, go_on, leave, loop}
use solana_orderbook.State.Constants.{nil, window_mask}
use solana_orderbook.State.{Side, bid, ask}
use solana_orderbook.State.Header.{Market}
use solana_orderbook.State.Nodes.{is_expired}
use solana_orderbook.Bitmap.{word_empty, next_at_or_after}
use solana_orderbook.Book.{M, with_header, node_at, level_at, bitmap, is_occupied, slot_of}
use solana_orderbook.Book.Orders.{kill_order}

-- One round of `evict_level`, over the count.
unfoldable pub evict_round : Side → ℕ → ℕ → M (Step ℕ ℕ)
evict_round s tick n = do
  occupied ← gets (is_occupied s tick)
  if not occupied
      then pure (leave n)
      else do level ← level_at (slot_of tick); kill_order level.head; pure (go_on (add32 n 1))

unfoldable pub set_anchor_tick : ℕ → Market → Market
set_anchor_tick anchor h = record h { anchor_tick = anchor }

-- Where `reanchor_step` wants the window to start: `v & !63` is `v / 64 * 64`.
unfoldable pub ideal_anchor : ℕ → ℕ → ℕ
ideal_anchor tick_limit target =
    let max_anchor = (tick_limit - window_mask) / 64 * 64 in
    min (max (target / 64 * 64) 64) max_anchor

module _ (budget : ℕ) where
  unfoldable pub evict_level : Side → ℕ → M ℕ
  unfolding evict_round
  evict_level s tick = loop budget (evict_round s tick) 0

  unfoldable pub evict_side : Side → ℕ → ℕ → M ℕ
  evict_side s tick evicted = do
    occupied ← gets (is_occupied s tick)
    if occupied then (do n ← evict_level s tick; pure (add32 evicted n)) else pure evicted

  -- One round over both sides of a tick, over `(t, evicted)`; `going` is the loop's condition.
  unfoldable pub vacate_round : (ℕ → Bool) → ℕ × ℕ → M (Step (ℕ × ℕ) ℕ)
  unfolding evict_side
  vacate_round going (t, evicted) =
      if going t
      then (do n ← evict_side bid t evicted; n' ← evict_side ask t n; pure (go_on (add32 t 1, n')))
      else pure (leave evicted)

  -- A word of 64 ticks, skipped if both bitmaps have it empty.
  unfoldable pub vacate_word : (ℕ → Bool) → ℕ → ℕ → M ℕ
  unfolding vacate_round
  vacate_word going tick evicted = do
    bids ← gets λ b. word_empty b.bid_bitmap tick
    asks ← gets λ b. word_empty b.ask_bitmap tick
    if not bids || not asks then loop budget (vacate_round going) (tick, evicted) else pure evicted

  -- The two slides, over `(cur, evicted)`.
  unfoldable pub slide_up : ℕ → ℕ → ℕ × ℕ → M (Step (ℕ × ℕ) (ℕ × ℕ))
  slide_up ideal max_levels (cur, evicted) =
      if ltb cur ideal && ltb evicted max_levels
      then (do
        n ← vacate_word (λ t. ltb t (add32 cur 64)) cur evicted
        pure (go_on (add32 cur 64, n)))
      else pure (leave (cur, evicted))

  unfoldable pub slide_down : ℕ → ℕ → ℕ × ℕ → M (Step (ℕ × ℕ) (ℕ × ℕ))
  slide_down ideal max_levels (cur, evicted) =
      if ltb ideal cur && ltb evicted max_levels
      then (do
        n ←
            vacate_word (λ t. leb t (add32 cur window_mask)) (sub32 (add32 cur window_mask) 63)
              evicted
        pure (go_on (sub32 cur 64, n)))
      else pure (leave (cur, evicted))

  -- `(levels_evicted, new_anchor)`.
  unfoldable pub reanchor_step : ℕ → ℕ → M (ℕ × ℕ)
  reanchor_step target max_levels = do
    h ← gets λ b. b.header
    let ideal = ideal_anchor h.tick_limit target
    (cur, evicted) ←
        (if ltb h.anchor_tick ideal
          then loop budget (slide_up ideal max_levels) (h.anchor_tick, 0)
          else (if ltb ideal h.anchor_tick
              then loop budget (slide_down ideal max_levels) (h.anchor_tick, 0)
              else pure (h.anchor_tick, 0)))
    modify (with_header (set_anchor_tick cur))
    pure (evicted, cur)

-- One round of the walk along a level, over `(cur, reaped)`: it ends with `leave` for `return` and
-- with `go_on` for the end of the queue.
unfoldable pub reap_round : ℕ → ℕ → ℕ × ℕ → M (Step (ℕ × ℕ) (Step ℕ ℕ))
reap_round max_count slot (cur, reaped) = if cur == nil then pure (leave (go_on reaped)) else do
  node ← node_at cur
  if is_expired node slot
      then (do
        kill_order cur
        let reaped' = add32 reaped 1
        if leb max_count reaped'
            then pure (leave (leave reaped'))
            else pure (go_on (node.next, reaped')))
      else pure (go_on (node.next, reaped))

unfoldable pub after_level : ℕ → ℕ → Step ℕ ℕ → Step (ℕ × ℕ) ℕ
after_level anchor t (leave reaped) = leave reaped
after_level anchor t (go_on reaped) =
    if leb (add32 anchor window_mask) t then leave reaped else go_on (add32 t 1, reaped)

module _ (budget : ℕ) (s : Side) (max_count slot anchor : ℕ) where
  unfoldable pub reap_level : ℕ → Option ℕ → M (Step (ℕ × ℕ) ℕ)
  unfolding after_level
  reap_level reaped none = pure (leave reaped)
  reap_level reaped (some t) = do
    level ← level_at (slot_of t)
    r ← loop budget (reap_round max_count slot) (level.head, reaped)
    pure (after_level anchor t r)

  unfoldable pub reap_levels : ℕ × ℕ → M (Step (ℕ × ℕ) ℕ)
  reap_levels (tick, reaped) = do
    found ← gets λ b. next_at_or_after (bitmap s b) anchor tick
    reap_level reaped found

unfoldable pub reap_expired : ℕ → Side → ℕ → ℕ → ℕ → M ℕ
reap_expired budget s start_tick max_count slot = do
  h ← gets λ b. b.header
  let tick = min (max start_tick h.anchor_tick) (add32 h.anchor_tick window_mask)
  loop budget (reap_levels budget s max_count slot h.anchor_tick) (tick, 0)
