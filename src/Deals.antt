-- ===== src/Deals.antt =====
-- The deals service: its deal aggregate (internal/deals/deal) and the table of the deals
-- (internal/deals/postgres).
pub mod Types
pub mod Status
pub mod Deal
pub mod Cancel
pub mod Confirmation
pub mod Approval
pub mod Selection
pub mod Factory
pub mod Cancelling
pub mod Commands
pub mod Lifecycle
pub mod Payment
pub mod Contract
pub mod Completing
pub mod Validity
pub mod Storage
pub mod Kept
pub mod Storing
pub mod Answering
pub mod Approving
pub mod Fallback
pub mod Creation
mod Tests
