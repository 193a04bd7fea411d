-- ===== src/Catalog.antt =====
-- The lots and products of the catalog (internal/catalog/domain).
pub mod Types
pub mod Product
pub mod Lot
pub mod Lots
pub mod Life
pub mod Products
mod Tests
