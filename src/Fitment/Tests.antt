-- ===== src/Fitment/Tests.antt =====
-- Runs of the fitment service.
mod Conflict
