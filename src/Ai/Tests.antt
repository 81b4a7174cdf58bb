-- ===== src/Ai/Tests.antt =====
-- Runs of the service in front of the models at concrete inputs.
mod Requests
