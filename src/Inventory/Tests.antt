-- ===== src/Inventory/Tests.antt =====
-- Runs of the inventory service, and the theorems at concrete inputs.
mod Shop
mod Rules
mod Settling
mod Reserving
mod Scraping
