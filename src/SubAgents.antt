-- ===== src/SubAgents.antt =====
-- backend/src/modules/subagent: the accounts that a reseller runs.
pub mod Status
pub mod Seating
pub mod Creation
pub mod Room
