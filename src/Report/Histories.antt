-- ===== src/Report/Histories.antt =====
-- What the review of reports keeps (backend/src/modules/report/report.service.js).
pub mod Tallies
pub mod Filed
pub mod Served
pub mod Settled
pub mod Decided
