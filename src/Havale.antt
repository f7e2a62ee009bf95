-- ===== src/Havale.antt =====
-- backend/src/modules/havale: the market of sale orders.
pub mod Store
pub mod Lifecycle
pub mod Cards
pub mod Browsing
pub mod Pages
pub mod Scrolling
pub mod Order
pub mod Opening
pub mod Confidence
pub mod Ownership
pub mod Listed
pub mod Walking
pub mod Stretches
