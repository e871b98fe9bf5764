-- ===== src/Inventory.antt =====
-- The inventory service, apps/inventory-service/src.
pub mod Rules
pub mod Errors
pub mod Tables
pub mod Repository
pub mod Service
pub mod Serving
pub mod Stock
pub mod Books
pub mod Events
pub mod Sweeper
pub mod Http
pub mod Api
pub mod Gauges
mod Tests
