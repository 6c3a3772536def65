-- ===== src/Context.antt =====
-- internal/context: the session that a conversation runs on (Session), the service that opens sessions
-- (Service), the token estimator and the budget policy (Budget), and the builder of a model's input
-- (Units, Truncate, Builder).
pub mod Session
pub mod Service
pub mod Budget
pub mod Units
pub mod Truncate
pub mod Builder
pub mod Examples
