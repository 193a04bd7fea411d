-- ===== src/Trading.antt =====
-- The trading service: its auction aggregate (internal/trading/auction) and its use cases over the
-- tables (internal/trading/app and internal/trading/postgres).
pub mod Types
pub mod Transitions
pub mod Winner
pub mod Auction
pub mod Ranking
pub mod Bidding
pub mod Lifecycle
pub mod Validity
pub mod Closing
pub mod Sort
pub mod Store
pub mod Statements
pub mod Usecases
pub mod Rows
pub mod Placing
mod StoreTests
mod Tests
