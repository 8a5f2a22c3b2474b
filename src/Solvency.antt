-- ===== src/Solvency.antt =====
-- The funds that the program owes, against the funds in the vaults, over the instructions of
-- program/src/lib.rs.
pub mod Owing
pub mod Makers
pub mod Takers
pub mod Vaults
pub mod Transfers
pub mod Payments
pub mod Swaps
pub mod Guards
pub mod Program
pub mod Reach
pub mod Listing
pub mod Exits
