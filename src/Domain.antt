-- ===== src/Domain.antt =====
-- The domain package, packages/domain/src: order statuses, roles, the transition table and the
-- role-aware state machine.
pub mod Transitions
pub mod StateMachine
pub mod Gate
pub mod Lifecycle
mod Tests
