-- ===== src/Wallet.antt =====
-- The money of the billing service (internal/billing/wallet).
pub mod Types
pub mod Account
pub mod Invoice
pub mod Payout
pub mod TopUp
pub mod Deposit
pub mod Movement
pub mod Balance
pub mod Invoicing
pub mod Paying
mod Tests
