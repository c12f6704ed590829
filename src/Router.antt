-- ===== src/Router.antt =====
-- The router's routes: which sides a packet may leave by, and which of them are chosen.
pub mod Budget
pub mod Settings
pub mod Selection
