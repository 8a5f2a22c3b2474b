-- ===== src/Book/MassQuote.antt =====
-- `Quote` and `mass_quote_side`: one merge of a sorted payload with the seat's chain region.
use solana_orderbook.Base.{
  ℕ, ◌+◌, ◌-◌, ◌*◌, ◌%◌, Bool, true, false, not, ◌&&◌, ◌||◌, Option, none, some, List, ◌==◌, ltb,
  leb, if◌then◌else◌,
}
use solana_orderbook.Base.Bytes.{drop, from_le}
use solana_orderbook.Exec.{
  Result, ok, err, pure, fail, gets, lift, ◌>>=◌, ◌>>◌, Step, go_on, leave, loop,
}
use solana_orderbook.Exec.Errors.{clob, payload_not_sorted, invalid_lots, would_cross}
use solana_orderbook.State.Constants.{nil}
use solana_orderbook.State.{Side, bid, ask}
use solana_orderbook.State.Header.{Market}
use solana_orderbook.State.Nodes.{side}
use solana_orderbook.Book.{M, node_at, edit_node, opposing_best}
use solana_orderbook.Book.Chain.{chain_splice}
use solana_orderbook.Book.Orders.{
  lock_for, kill_order, check_or_slide_vs, book_insert, set_expiry_slot, shrink,
}

pub record Quote : Type 0 where
  pub tick : ℕ
  pub lots : ℕ
  pub flags : ℕ

abbrev pub quote_len : ℕ
quote_len = 9

-- `flags & 1 != 0`.
unfoldable pub reject_on_cross : Quote → Bool
reject_on_cross q = not ((q.flags % 2) == 0)

unfoldable pub parse : List ℕ → ℕ → Quote
parse payload i =
    let bytes = drop (i * quote_len) payload in
    record {
      tick = from_le 4 bytes;
      lots = from_le 4 (drop 4 bytes);
      flags = from_le 1 (drop 8 bytes);
    }

-- The variables of the merge: the chain cursor, the payload index, and two ticks.
pub record Merge : Type 0 where
  pub prev : ℕ
  pub cur : ℕ
  pub qi : ℕ
  pub last_tick : ℕ
  pub last_used : ℕ

unfoldable pub same_side : Side → Side → Bool
same_side bid bid = true
same_side bid ask = false
same_side ask bid = false
same_side ask ask = true

-- `Some(tick) == region_next_tick`.
unfoldable pub hits : ℕ → Option ℕ → Bool
hits tick none = false
hits tick (some t) = tick == t

-- The tick of the chain cursor, while it is in this side's region.
unfoldable pub cur_info : Side → ℕ → M (Option ℕ)
cur_info s cur =
    if cur == nil
    then pure none
    else do node ← node_at cur; pure (if same_side (side node) s then some node.tick else none)

-- The next quote of the payload, checked.
unfoldable pub next_quote : List ℕ → ℕ → Merge → Market → Result (Option Quote)
next_quote payload count m h =
    let q = parse payload m.qi in
    if ltb m.qi count
    then (if ltb 0 m.qi && leb q.tick m.last_tick
        then err (clob payload_not_sorted)
        else (if (q.lots == 0) || ltb h.max_lots_per_order q.lots
            then err (clob invalid_lots)
            else ok (some q)))
    else ok none

module _ (seat : ℕ) (s : Side) (expiry_slot : ℕ) (best : Option ℕ) where
  -- `mass_quote_insert` writes through `prev` and `last_used`, so it returns the merge.
  unfoldable pub mass_quote_insert : Quote → Merge → Option ℕ → M Merge
  mass_quote_insert q m region_next_tick = do
    h ← gets λ b. b.header
    tick ← lift (check_or_slide_vs s q.tick (not (reject_on_cross q)) best h)
    if leb tick m.last_used || hits tick region_next_tick then fail would_cross else do
      lock_for seat s tick q.lots
      idx ← book_insert s tick q.lots seat expiry_slot
      chain_splice seat m.prev m.cur idx
      pure (record m { prev = idx; last_used = tick })

  -- A chain quote that the payload does not have.
  unfoldable pub cancel_cur : Merge → M (Step Merge (ℕ × ℕ))
  cancel_cur m = do
    node ← node_at m.cur
    kill_order m.cur
    pure (go_on (record m { cur = node.maker_next }))

  -- A payload quote at a tick that the chain does not have.
  unfoldable pub insert_quote : Quote → Option ℕ → Merge → M (Step Merge (ℕ × ℕ))
  insert_quote q region_next_tick m = do
    m' ← mass_quote_insert q m region_next_tick
    pure (go_on (record m' { last_tick = q.tick; qi = m'.qi + 1 }))

  -- Past a quote that stays where it is.
  unfoldable pub step_over : Quote → ℕ → Merge → M (Step Merge (ℕ × ℕ))
  step_over q ct m = do
    node ← node_at m.cur
    pure (
        go_on (record {
          prev = m.cur;
          cur = node.maker_next;
          qi = m.qi + 1;
          last_tick = q.tick;
          last_used = ct;
        }))

  -- Payload and chain agree on the tick. The payload's lots are positive by now, so the source's
  -- tests for 0 have one outcome.
  unfoldable pub merge_equal : Quote → ℕ → Merge → M (Step Merge (ℕ × ℕ))
  merge_equal q ct m = do
    node ← node_at m.cur
    if q.lots == node.lots
        then (do edit_node m.cur (set_expiry_slot expiry_slot); step_over q ct m)
        else (if ltb q.lots node.lots && ltb 0 q.lots
            then (do
              shrink seat s ct m.cur q.lots (node.lots - q.lots)
              edit_node m.cur (set_expiry_slot expiry_slot)
              step_over q ct m)
            else (do
              kill_order m.cur
              m' ←
                  (if ltb 0 q.lots
                    then mass_quote_insert q (record m { cur = node.maker_next }) none
                    else pure (record m { cur = node.maker_next }))
              pure (go_on (record m' { last_tick = q.tick; qi = m'.qi + 1 }))))

  unfoldable pub merge_case : Option ℕ → Option Quote → Merge → M (Step Merge (ℕ × ℕ))
  merge_case none none m = pure (leave (m.prev, m.cur))
  merge_case (some ct) none m = cancel_cur m
  merge_case none (some q) m = insert_quote q none m
  merge_case (some ct) (some q) m =
      if ltb ct q.tick
      then cancel_cur m
      else (if ltb q.tick ct then insert_quote q (some ct) m else merge_equal q ct m)

  unfoldable pub merge_round : List ℕ → ℕ → Merge → M (Step Merge (ℕ × ℕ))
  merge_round payload count m = do
    at ← cur_info s m.cur
    h ← gets λ b. b.header
    q ← lift (next_quote payload count m h)
    merge_case at q m

unfoldable pub start_merge : ℕ × ℕ → Merge
start_merge (prev, cur) = record { prev = prev; cur = cur; qi = 0; last_tick = 0; last_used = 0 }

unfoldable pub mass_quote_side : ℕ → ℕ → Side → List ℕ → ℕ → ℕ → ℕ × ℕ → M (ℕ × ℕ)
unfolding start_merge
mass_quote_side budget seat s payload count expiry_slot cursor = do
  best ← gets (opposing_best s)
  loop budget (merge_round seat s expiry_slot best payload count) (start_merge cursor)
