-- ===== src/Subscription.antt =====
-- backend/src/modules/subscription: subscriptions, the entitlement that follows from them, and the
-- capacity for sub-agencies that resellers buy.
pub mod Store
pub mod Entitlement
pub mod Periods
pub mod Grants
pub mod Renewal
pub mod Seats
pub mod Credits
pub mod Overlaps
pub mod Capacity
pub mod Inheritance
