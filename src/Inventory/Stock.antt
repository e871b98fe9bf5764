-- ===== src/Inventory/Stock.antt =====
-- The stock counts of the inventory database: what the operations of the service keep.
pub mod Frame
pub mod Consistency
pub mod Recording
pub mod Updates
pub mod Releasing
pub mod Committing
pub mod Settled
pub mod Release
pub mod Holding
pub mod Reserve
pub mod ReserveCall
pub mod Restock
pub mod Calls
pub mod Once
pub mod Rows
pub mod Confirmed
pub mod Asked
