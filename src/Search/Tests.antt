-- ===== src/Search/Tests.antt =====
-- Runs of the search service at concrete inputs.
mod Events
