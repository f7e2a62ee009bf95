-- ===== src/Report.antt =====
-- backend/src/modules/report: violation reports, verdicts and strikes.
pub mod Store
pub mod Filing
pub mod Review
pub mod Tally
pub mod Waiting
pub mod Histories
pub mod Overlaps
pub mod Verdicts
pub mod Limits
