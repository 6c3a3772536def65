-- ===== src/Engine.antt =====
-- internal/engine: the reminder against repeated failures (Reminder), the call of the model
-- (Generate), the loop on a session (Loop) and the loop of a subagent (Subagent).
pub mod Reminder
pub mod Generate
pub mod Loop
pub mod Subagent
pub mod Examples
