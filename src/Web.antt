-- ===== src/Web.antt =====
-- The web dashboard, apps/web: what its pages compute from queries, the session and their own state.
-- Styles, links and the formats of money and dates are left out.
pub mod Session
pub mod Detail
pub mod NewOrder
pub mod OrderList
pub mod Chrome
pub mod Tests
