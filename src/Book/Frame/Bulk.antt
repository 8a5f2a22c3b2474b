-- ===== src/Book/Frame/Bulk.antt =====
-- Frames and the operations on many orders: the merge of a mass quote, eviction, reaping.
use solana_orderbook.Base.{Bool, ℕ, Option, none, some, List}
use solana_orderbook.Exec.Keeps.{Keeps, Keeps-loop}
use solana_orderbook.State.{Side}
use solana_orderbook.Book.MassQuote.{
  Quote, Merge, cur_info, mass_quote_insert, cancel_cur, insert_quote, step_over, merge_equal,
  merge_case, merge_round, mass_quote_side,
}
use solana_orderbook.Book.Hygiene.{
  evict_round, evict_level, evict_side, vacate_round, vacate_word, slide_up, slide_down, reap_round,
  reap_level, reap_levels, reap_expired,
}
use solana_orderbook.Book.Frame.{Frame}
use solana_orderbook.Book.Frame.Lists.{write_rules, chain_splice-Keeps}
use solana_orderbook.Book.Frame.Lifecycle.{
  lock_for-Keeps, kill_order-Keeps, book_insert-Keeps, shrink-Keeps,
}

module _ (F : Frame) where
  module _ (seat : ℕ) (s : Side) (expiry_slot : ℕ) (best : Option ℕ) where
    mass_quote_insert-Keeps :
        (q : Quote) (m : Merge) (o : Option ℕ)
        → Keeps F.order (mass_quote_insert seat s expiry_slot best q m o)
    unfolding mass_quote_insert
    mass_quote_insert-Keeps q m o =
        search (write_rules, lock_for-Keeps, book_insert-Keeps, chain_splice-Keeps) depth 12

    cancel_cur-Keeps : (m : Merge) → Keeps F.order (cancel_cur seat s expiry_slot best m)
    unfolding cancel_cur
    cancel_cur-Keeps m = search (write_rules, kill_order-Keeps) depth 8

    insert_quote-Keeps :
        (q : Quote) (o : Option ℕ) (m : Merge)
        → Keeps F.order (insert_quote seat s expiry_slot best q o m)
    unfolding insert_quote
    insert_quote-Keeps q o m = search (write_rules, mass_quote_insert-Keeps) depth 8

    step_over-Keeps :
        (q : Quote) (ct : ℕ) (m : Merge) → Keeps F.order (step_over seat s expiry_slot best q ct m)
    unfolding step_over
    step_over-Keeps q ct m = search write_rules depth 8

    merge_equal-Keeps :
        (q : Quote) (ct : ℕ) (m : Merge)
        → Keeps F.order (merge_equal seat s expiry_slot best q ct m)
    unfolding merge_equal
    merge_equal-Keeps q ct m =
        search
          (write_rules, step_over-Keeps, shrink-Keeps, kill_order-Keeps, mass_quote_insert-Keeps)
          depth 12

    merge_case-Keeps :
        (at : Option ℕ) (q : Option Quote) (m : Merge)
        → Keeps F.order (merge_case seat s expiry_slot best at q m)
    unfolding merge_case
    merge_case-Keeps none none m = search write_rules
    merge_case-Keeps (some ct) none m = cancel_cur-Keeps m
    merge_case-Keeps none (some q) m = insert_quote-Keeps q none m
    merge_case-Keeps (some ct) (some q) m =
        search (write_rules, cancel_cur-Keeps, insert_quote-Keeps, merge_equal-Keeps) depth 8

    merge_round-Keeps :
        (payload : List ℕ) (count : ℕ) (m : Merge)
        → Keeps F.order (merge_round seat s expiry_slot best payload count m)
    unfolding merge_round cur_info
    merge_round-Keeps payload count m = search (write_rules, merge_case-Keeps) depth 10

  pub mass_quote_side-Keeps :
      (budget seat : ℕ) (s : Side) (payload : List ℕ) (count expiry_slot : ℕ) (cursor : ℕ × ℕ)
      → Keeps F.order (mass_quote_side budget seat s payload count expiry_slot cursor)
  unfolding mass_quote_side
  mass_quote_side-Keeps budget seat s payload count expiry_slot cursor =
      search (write_rules, merge_round-Keeps) depth 8

  evict_round-Keeps : (s : Side) (tick n : ℕ) → Keeps F.order (evict_round s tick n)
  unfolding evict_round
  evict_round-Keeps s tick n = search (write_rules, kill_order-Keeps) depth 9

  module _ (budget : ℕ) where
    evict_level-Keeps : (s : Side) (tick : ℕ) → Keeps F.order (evict_level budget s tick)
    unfolding evict_level
    evict_level-Keeps s tick = Keeps-loop budget (evict_round s tick) 0 (evict_round-Keeps s tick)

    evict_side-Keeps : (s : Side) (tick n : ℕ) → Keeps F.order (evict_side budget s tick n)
    unfolding evict_side
    evict_side-Keeps s tick n = search (write_rules, evict_level-Keeps) depth 9

    vacate_round-Keeps :
        (going : ℕ → Bool) (at : ℕ × ℕ) → Keeps F.order (vacate_round budget going at)
    unfolding vacate_round
    vacate_round-Keeps going (t, n) = search (write_rules, evict_side-Keeps) depth 10

    vacate_word-Keeps :
        (going : ℕ → Bool) (tick n : ℕ) → Keeps F.order (vacate_word budget going tick n)
    unfolding vacate_word
    vacate_word-Keeps going tick n = search (write_rules, vacate_round-Keeps) depth 9

    pub slide_up-Keeps :
        (ideal max_levels : ℕ) (at : ℕ × ℕ) → Keeps F.order (slide_up budget ideal max_levels at)
    unfolding slide_up
    slide_up-Keeps ideal max_levels (cur, evicted) = search (write_rules, vacate_word-Keeps) depth 9

    pub slide_down-Keeps :
        (ideal max_levels : ℕ) (at : ℕ × ℕ) → Keeps F.order (slide_down budget ideal max_levels at)
    unfolding slide_down
    slide_down-Keeps ideal max_levels (cur, evicted) =
        search (write_rules, vacate_word-Keeps) depth 9

  reap_round-Keeps :
      (max_count slot : ℕ) (at : ℕ × ℕ) → Keeps F.order (reap_round max_count slot at)
  unfolding reap_round
  reap_round-Keeps max_count slot (cur, reaped) = search (write_rules, kill_order-Keeps) depth 12

  module _ (budget : ℕ) (s : Side) (max_count slot anchor : ℕ) where
    reap_level-Keeps :
        (reaped : ℕ) (o : Option ℕ)
        → Keeps F.order (reap_level budget s max_count slot anchor reaped o)
    unfolding reap_level
    reap_level-Keeps reaped none = search write_rules
    reap_level-Keeps reaped (some t) = search (write_rules, reap_round-Keeps) depth 9

    reap_levels-Keeps : (at : ℕ × ℕ) → Keeps F.order (reap_levels budget s max_count slot anchor at)
    unfolding reap_levels
    reap_levels-Keeps (tick, reaped) = search (write_rules, reap_level-Keeps) depth 8

  pub reap_expired-Keeps :
      (budget : ℕ) (s : Side) (start_tick max_count slot : ℕ)
      → Keeps F.order (reap_expired budget s start_tick max_count slot)
  unfolding reap_expired
  reap_expired-Keeps budget s start_tick max_count slot =
      search (write_rules, reap_levels-Keeps) depth 8
