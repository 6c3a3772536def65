-- ===== src/Gateway.antt =====
-- internal/gateway: the manager of per-route workers (Conversations), the message deduplicator (Dedup),
-- the reply commands (Commands), the path of an inbound message (Admission) the restarts of
-- adapters (Supervisor) and the session of a route (Sessions).
pub mod Conversations
pub mod Dedup
pub mod Commands
pub mod Admission
pub mod Supervisor
pub mod Sessions
