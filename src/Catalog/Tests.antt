-- ===== src/Catalog/Tests.antt =====
-- Runs of the catalog.
mod Prices
mod Feeds
