-- ===== src/Book/Frame/Fixed.antt =====
-- The parameters of the market that no book operation writes, and frames taken together.
use solana_orderbook.Base.{◌≡◌, refl, ap, ◌∙◌}
use solana_orderbook.Book.{Book, with_header, with_pool, with_level, with_seat, with_bitmap}
use solana_orderbook.Book.Pool.{set_free_list}
use solana_orderbook.State.{Side, bid, ask}
use solana_orderbook.State.Header.{Market, advance_order_seq}
use solana_orderbook.Bitmap.{Bitmap}
use solana_orderbook.Book.Frame.{Frame}

-- The header without the fields that book operations write, and without the anchor.
abbrev pub listing : Market → Market
listing h = record h {
  anchor_tick = 0;
  free_head = 0;
  free_count = 0;
  seq = 0;
  order_seq = 0;
  fees_accrued_quote = 0;
}

pub record SameParams (b b' : Book) : Type 0 where
  pub tick_size : b'.header.tick_size ≡ b.header.tick_size
  pub base_lot_size : b'.header.base_lot_size ≡ b.header.base_lot_size
  pub anchor_tick : b'.header.anchor_tick ≡ b.header.anchor_tick
  pub fee_bps : b'.header.fee_bps ≡ b.header.fee_bps
  pub listed : listing b'.header ≡ listing b.header

pub SameParams-refl : (b : Book) → SameParams b b
SameParams-refl b = record {
  tick_size = refl;
  base_lot_size = refl;
  anchor_tick = refl;
  fee_bps = refl;
  listed = refl;
}

pub SameParams-trans : (b c d : Book) → SameParams b c → SameParams c d → SameParams b d
SameParams-trans b c d p q = record {
  tick_size = q.tick_size ∙ p.tick_size;
  base_lot_size = q.base_lot_size ∙ p.base_lot_size;
  anchor_tick = q.anchor_tick ∙ p.anchor_tick;
  fee_bps = q.fee_bps ∙ p.fee_bps;
  listed = q.listed ∙ p.listed;
}

pub same_header : (b b' : Book) → b'.header ≡ b.header → SameParams b b'
same_header b b' e = record {
  tick_size = ap (λ h. h.tick_size) e;
  base_lot_size = ap (λ h. h.base_lot_size) e;
  anchor_tick = ap (λ h. h.anchor_tick) e;
  fee_bps = ap (λ h. h.fee_bps) e;
  listed = ap listing e;
}

on_bitmap : (s : Side) (f : Bitmap → Bitmap) (b : Book) → SameParams b (with_bitmap s f b)
unfolding with_bitmap
on_bitmap bid f b = same_header b _ refl
on_bitmap ask f b = same_header b _ refl

unfoldable pub fixed : Frame
unfolding with_pool with_level with_header with_seat set_free_list advance_order_seq same_header
    on_bitmap
fixed = record {
  order = record { Rel = SameParams; rel_refl = SameParams-refl; rel_trans = SameParams-trans };
  on_pool = λ i n b. same_header b _ refl;
  on_level = λ i l b. same_header b _ refl;
  on_set = λ s tick b. on_bitmap s _ b;
  on_clear = λ s tick b. on_bitmap s _ b;
  on_free_list = λ head count b. record {
    tick_size = refl;
    base_lot_size = refl;
    anchor_tick = refl;
    fee_bps = refl;
    listed = refl;
  };
  on_order_seq = λ b. record {
    tick_size = refl;
    base_lot_size = refl;
    anchor_tick = refl;
    fee_bps = refl;
    listed = refl;
  };
  on_links = λ i s b small f. same_header b _ refl;
  on_lock = λ i base atoms s b small e. same_header b _ refl;
  on_unlock = λ i base atoms s b small e. same_header b _ refl;
}

-- The listing alone, which a change of the anchor keeps too.
unfoldable pub listings : Frame
unfolding fixed
listings = record {
  order = record {
    Rel = λ b b'. listing b'.header ≡ listing b.header;
    rel_refl = λ b. refl;
    rel_trans = λ b c d p q. q ∙ p;
  };
  on_pool = λ i n b. (fixed.on_pool i n b).listed;
  on_level = λ i l b. (fixed.on_level i l b).listed;
  on_set = λ s tick b. (fixed.on_set s tick b).listed;
  on_clear = λ s tick b. (fixed.on_clear s tick b).listed;
  on_free_list = λ head count b. (fixed.on_free_list head count b).listed;
  on_order_seq = λ b. (fixed.on_order_seq b).listed;
  on_links = λ i s b small f. (fixed.on_links i s b small f).listed;
  on_lock = λ i base atoms s b small e. (fixed.on_lock i base atoms s b small e).listed;
  on_unlock = λ i base atoms s b small e. (fixed.on_unlock i base atoms s b small e).listed;
}

unfoldable pub both : Frame → Frame → Frame
both F G = record {
  order = record {
    Rel = λ b c. F.Rel b c × G.Rel b c;
    rel_refl = λ b. (F.order.rel_refl b, G.order.rel_refl b);
    rel_trans =
        λ b c d (p, q) (p', q'). (F.order.rel_trans b c d p p', G.order.rel_trans b c d q q');
  };
  on_pool = λ i n b. (F.on_pool i n b, G.on_pool i n b);
  on_level = λ i l b. (F.on_level i l b, G.on_level i l b);
  on_set = λ s tick b. (F.on_set s tick b, G.on_set s tick b);
  on_clear = λ s tick b. (F.on_clear s tick b, G.on_clear s tick b);
  on_free_list = λ head count b. (F.on_free_list head count b, G.on_free_list head count b);
  on_order_seq = λ b. (F.on_order_seq b, G.on_order_seq b);
  on_links = λ i s b small f. (F.on_links i s b small f, G.on_links i s b small f);
  on_lock = λ i base atoms s b small e.
      (F.on_lock i base atoms s b small e, G.on_lock i base atoms s b small e);
  on_unlock = λ i base atoms s b small e.
      (F.on_unlock i base atoms s b small e, G.on_unlock i base atoms s b small e);
}
