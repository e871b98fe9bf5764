-- ===== src/Orders.antt =====
-- The order workflow service, apps/workflow-service/src.
pub mod Errors
pub mod Tables
pub mod Repository
pub mod Transition
pub mod Revision
pub mod Client
pub mod Placement
pub mod Keys
pub mod Replay
pub mod Reuse
pub mod Tests
pub mod Checkout
pub mod Edge
pub mod Guards
pub mod Dto
pub mod Fingerprint
pub mod Api
pub mod Traffic
pub mod Serving
pub mod Histories
pub mod Audit
