-- ===== src/Examples.antt =====
-- The theorems at concrete inputs, and runs of the model.
mod Fixtures
mod Reveals
mod Grants
mod Reports
mod Seats
mod Havale
mod SubAgents
mod Brands
mod Basics
mod Security
mod SignIn
mod Texts
mod Tickets
mod Jalali
