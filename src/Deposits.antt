-- ===== src/Deposits.antt =====
-- The use cases of the billing service on auction deposits (internal/billing/app).
pub mod Store
pub mod Finish
pub mod Once
pub mod Reserve
pub mod Reserving
pub mod Settle
pub mod Saved
pub mod Settled
pub mod Settlement
pub mod Fee
pub mod FeeTaken
pub mod Fees
pub mod Rest
pub mod Released
pub mod Releases
mod Tests
