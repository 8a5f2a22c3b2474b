-- ===== src/State/Constants.antt =====
-- program/src/constants.rs.
use solana_orderbook.Base.{ℕ, ◌+◌, ◌*◌, ◌/◌, ◌-◌, u16_mod, u64_max}

abbrev pub window_ticks : ℕ
window_ticks = 8192

abbrev pub window_mask : ℕ
window_mask = 8191

abbrev pub bitmap_leaf_words : ℕ
bitmap_leaf_words = window_ticks / 64

abbrev pub bitmap_summary_words : ℕ
bitmap_summary_words = bitmap_leaf_words / 64

abbrev pub max_seats : ℕ
max_seats = 128

abbrev pub max_orders_per_seat : ℕ
max_orders_per_seat = 128

abbrev pub nil : ℕ
nil = 0

abbrev pub no_seat : ℕ
no_seat = u16_mod - 1

abbrev pub max_pool_capacity : ℕ
max_pool_capacity = 1 + max_seats * max_orders_per_seat + max_orders_per_seat

abbrev pub bitmap_len : ℕ
bitmap_len = bitmap_summary_words * 8 + bitmap_leaf_words * 8

abbrev pub level_len : ℕ
level_len = 16

abbrev pub seat_len : ℕ
seat_len = 80

abbrev pub node_len : ℕ
node_len = 30

abbrev pub bid_bitmap_offset : ℕ
bid_bitmap_offset = 320

abbrev pub ask_bitmap_offset : ℕ
ask_bitmap_offset = bid_bitmap_offset + bitmap_len

abbrev pub levels_offset : ℕ
levels_offset = ask_bitmap_offset + bitmap_len

abbrev pub seats_offset : ℕ
seats_offset = levels_offset + window_ticks * level_len

abbrev pub pool_offset : ℕ
pool_offset = seats_offset + max_seats * seat_len

abbrev pub min_pool_capacity : ℕ
min_pool_capacity = 64

abbrev pub min_market_len : ℕ
min_market_len = pool_offset + min_pool_capacity * node_len

abbrev pub market_version : ℕ
market_version = 4

abbrev pub config_version : ℕ
config_version = 1

abbrev pub token_program_legacy : ℕ
token_program_legacy = 0

abbrev pub token_program_2022 : ℕ
token_program_2022 = 1

abbrev pub config_len : ℕ
config_len = 128

abbrev pub max_fee_bps : ℕ
max_fee_bps = 500

abbrev pub fee_denominator : ℕ
fee_denominator = 10000

abbrev pub freed_seq : ℕ
freed_seq = u64_max
