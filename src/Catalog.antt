-- ===== src/Catalog.antt =====
-- The catalog service (services/catalog/src/catalog): the prices that a product page shows, and the trust in a seller.
pub mod Pricing
pub mod Trust
pub mod Tables
pub mod Feed
mod Tests
