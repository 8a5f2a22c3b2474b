-- ===== src/Book/Frame/Lifecycle.antt =====
-- Orders that are posted, amended, cancelled, replaced, evicted or reaped respect every frame.
use solana_orderbook.Base.{ℕ, Bool, Option, none, some}
use solana_orderbook.Exec.Keeps.{Keeps}
use solana_orderbook.State.{Side}
use solana_orderbook.Book.Orders.{
  lock_for, unlock_for, kill_order, check_or_slide, book_insert, shrink, post_order, amend_order,
  cancel_quote, upsert_order, cancel_order,
}
use solana_orderbook.Book.Frame.{Frame, settle_seat-Keeps, order_seq-Keeps}
use solana_orderbook.Book.Frame.Lists.{
  write_rules, alloc_node-Keeps, fifo_append-Keeps, fifo_unlink-Keeps, chain_unlink-Keeps,
  ensure_order_slot-Keeps, chain_insert_sorted-Keeps, find_quote-Keeps,
}

module _ (F : Frame) where
  pub lock_for-Keeps :
      (seat : ℕ) (s : Side) (tick lots : ℕ) → Keeps F.order (lock_for seat s tick lots)
  unfolding lock_for
  lock_for-Keeps seat s tick lots = search (write_rules, settle_seat-Keeps, F.on_lock) depth 8

  unlock_for-Keeps :
      (seat : ℕ) (s : Side) (tick lots : ℕ) → Keeps F.order (unlock_for seat s tick lots)
  unfolding unlock_for
  unlock_for-Keeps seat s tick lots = search (write_rules, settle_seat-Keeps, F.on_unlock) depth 8

  pub kill_order-Keeps : (idx : ℕ) → Keeps F.order (kill_order idx)
  unfolding kill_order
  kill_order-Keeps idx =
      search (write_rules, fifo_unlink-Keeps, unlock_for-Keeps, chain_unlink-Keeps) depth 8

  check_or_slide-Keeps :
      (s : Side) (tick : ℕ) (slide : Bool) → Keeps F.order (check_or_slide s tick slide)
  unfolding check_or_slide
  check_or_slide-Keeps s tick slide = search write_rules

  pub book_insert-Keeps :
      (s : Side) (tick lots seat expiry_slot : ℕ)
      → Keeps F.order (book_insert s tick lots seat expiry_slot)
  unfolding book_insert
  book_insert-Keeps s tick lots seat expiry_slot =
      search (write_rules, alloc_node-Keeps, order_seq-Keeps, fifo_append-Keeps) depth 12

  pub shrink-Keeps :
      (seat : ℕ) (s : Side) (tick cur lots diff : ℕ)
      → Keeps F.order (shrink seat s tick cur lots diff)
  unfolding shrink
  shrink-Keeps seat s tick cur lots diff = search (write_rules, unlock_for-Keeps) depth 8

  cancel_quote-Keeps : (o : Option ℕ) → Keeps F.order (cancel_quote o)
  unfolding cancel_quote
  cancel_quote-Keeps none = search write_rules
  cancel_quote-Keeps (some cur) = search (write_rules, kill_order-Keeps)

  module _ (budget : ℕ) where
    post_order-Keeps :
        (s : Side) (tick lots seat expiry_slot : ℕ)
        → Keeps F.order (post_order budget s tick lots seat expiry_slot)
    unfolding post_order
    post_order-Keeps s tick lots seat expiry_slot =
        search
          (
            write_rules, ensure_order_slot-Keeps, lock_for-Keeps, book_insert-Keeps,
            chain_insert_sorted-Keeps,
          )
          depth 10

    amend_order-Keeps :
        (s : Side) (tick lots seat expiry_slot : ℕ) (o : Option ℕ)
        → Keeps F.order (amend_order budget s tick lots seat expiry_slot o)
    unfolding amend_order
    amend_order-Keeps s tick lots seat expiry_slot none =
        post_order-Keeps s tick lots seat expiry_slot
    amend_order-Keeps s tick lots seat expiry_slot (some cur) =
        search (write_rules, shrink-Keeps, kill_order-Keeps, post_order-Keeps) depth 10

    pub upsert_order-Keeps :
        (s : Side) (tick lots seat expiry_slot : ℕ) (slide : Bool)
        → Keeps F.order (upsert_order budget s tick lots seat expiry_slot slide)
    unfolding upsert_order
    upsert_order-Keeps s tick lots seat expiry_slot slide =
        search
          (
            write_rules, find_quote-Keeps, cancel_quote-Keeps, check_or_slide-Keeps,
            amend_order-Keeps,
          )
          depth 10

  pub cancel_order-Keeps :
      (seat idx expected_seq : ℕ) → Keeps F.order (cancel_order seat idx expected_seq)
  unfolding cancel_order
  cancel_order-Keeps seat idx expected_seq = search (write_rules, kill_order-Keeps) depth 8
