-- ===== src/Instructions/Cancel.antt =====
-- program/src/maker/cancel.rs.
use solana_orderbook.Base.{ℕ, List}
use solana_orderbook.Base.Bytes.{u16_at, u64_at}
use solana_orderbook.Exec.{Result, ok, ◌>>◌}
use solana_orderbook.Book.{M}
use solana_orderbook.Book.Orders.{cancel_order}
use solana_orderbook.Book.SeatTable.{check_seat}
use solana_orderbook.Runtime.Accounts.{AccountInfo, ProgramIds}
use solana_orderbook.Instructions.{exactly, bump, by_owner}

pub record CancelInstructionData : Type 0 where
  pub seat_index : ℕ
  pub node_index : ℕ
  pub order_seq : ℕ

unfoldable pub try_from : List ℕ → Result CancelInstructionData
try_from bytes = exactly 12 bytes (
    ok record {
      seat_index = u16_at 0 bytes;
      node_index = u16_at 2 bytes;
      order_seq = u64_at 4 bytes;
    })

unfoldable pub process : ℕ → CancelInstructionData → M (Unit {0})
process owner d = do
  check_seat d.seat_index owner
  cancel_order d.seat_index d.node_index d.order_seq
  bump

-- The accounts and the data are read, and the instruction processed.
abbrev pub run : ProgramIds → List AccountInfo → List ℕ → M (Unit {0})
run = by_owner try_from (process)
