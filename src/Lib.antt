-- ===== src/Lib.antt =====
-- A verification library for solana-orderbook, a central limit order book that runs as a Solana
-- program.
--
-- The program keeps a market in one account: a header, two occupancy bitmaps over a ring of 8,192
-- price ticks, one level per tick, 128 seats with the traders' balances, and a pool of order nodes.
-- An order is a node that stands in the queue of its level and in the chain of its seat. The traders'
-- tokens stand in two vaults. `process_instruction` selects a handler by the first byte of the data;
-- a handler checks its accounts, reads its data, calls the operations of `BookRefMut`, which work on
-- the account's bytes alone, and moves tokens by calls of a token program.
--
-- State/          program/src/constants.rs and the records of program/src/state.rs: Market (Header),
--                 Level and OrderNode (Nodes), Seat (Seats). State/Bounds is what
--                 matching needs of a market's parameters.
-- Exec            handlers as state passing with failure; Exec/Errors is program/src/errors.rs.
--                 Exec/Keeps and Exec/Triples are proof rules for relations and invariants, Exec/Runs
--                 for actions that succeed.
-- Base/Bytes      the little-endian fields of instruction data and of foreign accounts.
-- Bitmap          `Bitmap`, with the segment scans and the window searches. Bitmap/Words models a
--                 64-bit word as its bits; Bitmap/Scan, Bitmap/Window and Bitmap/Laws are proofs.
-- Book            `BookRefMut` and its reads and writes. Its operations stand in Book/Pool
--                 (alloc_node, free_node, thread_free_list), Book/Fifo (fifo_append, fifo_unlink),
--                 Book/Chain (chain_*, find_quote), Book/Orders (kill_order, upsert_order,
--                 cancel_order and the crossing check), Book/Take (take), Book/MassQuote
--                 (mass_quote_side), Book/Hygiene (reanchor_step, reap_expired) and Book/SeatTable
--                 (claim_seat, check_seat). Each function has the name of the one it models; the
--                 rounds of a loop and the arms of a match are functions of their own.
-- Book/Frame      relations that operations respect: a `Frame` is a preorder on books with a rule
--                 for each primitive write. Book/Index, Book/Frame/Fixed and Ledger/Conserves have
--                 such frames; Book/Frame/Quiet has the writes that leave bitmaps and levels alone.
-- Book/Crossing   the crossing check against what stands in the book. Book/Occupancy is what posting
--                 and cancelling do to the bitmaps and the queues, Book/Vacating the ticks that a move
--                 of the window leaves, Book/Sparing the orders that reaping leaves alone.
-- Ledger          the balances of all seats as a ledger; Ledger/Taking has the theorem on `take`.
-- Runtime         what surrounds the market account: the world of a transaction, with the book, the
--                 configs and the token accounts. Runtime/Checks is program/src/helpers.rs,
--                 Runtime/Accounts the accounts that it checks. The token programs are a parameter,
--                 `TokenProgram`; `Custody` states the documented behaviour of a transfer.
--                 Runtime/Programs has the rest of the runtime as a parameter: the clock, the
--                 program's ids, address derivation and account creation.
-- Instructions    the handlers, a file for each, with its data, its account checks and its `process`;
--                 Instructions/Dispatch is `process_instruction` of program/src/lib.rs.
-- Admin           the parameters of program/src/admin/create_market.rs and update_fee.rs; Admin/Guards
--                 relates the guards to State/Bounds. Admin/Mints is the check of a mint's extensions.
-- Solvency        what the program owes against what its vaults hold, through every instruction.
-- Scale           sdk/rust/src/scale.rs: prices and amounts between the user's units and the book's.
-- Demo            the theorems at work on a small market.
--
-- Numbers are natural numbers with the wrap-around of their width written out, as in a build without
-- overflow checks. A level index is masked; an index past the end of the seats or of the pool
-- panics. A failing instruction leaves no state: the runtime discards its writes. A table is a
-- function from its indices. An address is a number; the 32 bytes of one are read as that number.
--
-- A loop of the program takes at most `budget` rounds, the model's compute budget, and running out
-- is an abort like the runtime's own; a theorem about a success holds for every budget. The scans of
-- a bitmap take no budget: there are two summary words, so they have a round for each, and one more
-- that leaves the loop. The scan of a mint's extensions moves on in each round, so a round for each
-- byte of the mint is enough.
--
-- Not modelled: the fast path of program/src/entrypoint.rs, which reads the runtime's input buffer in
-- place; event logs, and the bytes of a token transfer; sdk/rust/src/snapshot.rs; the generated
-- clients under sdk/; tests, benches and fuzz targets. `take_for_test` and
-- `set_next_order_id_for_test` exist for tests only.
pub mod Base
pub mod Exec
pub mod State
pub mod Bitmap
pub mod Book
pub mod Ledger
pub mod Runtime
pub mod Instructions
pub mod Solvency
pub mod Scale
pub mod Admin
pub mod Demo
