-- ===== src/Chain.antt =====
-- The calls and events of the auction contract (internal/blockchain/evm).
pub mod Hex
pub mod Word
pub mod Calldata
pub mod Abi
pub mod Reading
pub mod Calls
pub mod Creating
pub mod Anchoring
mod Tests
