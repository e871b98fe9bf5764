-- ===== src/Inventory/Service.antt =====
-- apps/inventory-service/src/inventory/inventory.service.ts. Spans and log lines are left out.
pub mod Record
pub mod Reserve
pub mod Settle
