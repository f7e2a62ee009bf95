-- ===== src/Security.antt =====
-- backend/src/modules/security and the request guards that feed it.
pub mod Counters
pub mod Events
pub mod Threats
