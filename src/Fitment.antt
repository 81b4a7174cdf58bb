-- ===== src/Fitment.antt =====
-- The fitment service (services/fitment/src/fitment): which vehicles a part fits, from what the
-- sellers claim and what people decide.
pub mod Models
pub mod Outbox
pub mod Resolver
pub mod Inference
pub mod Recompute
pub mod Decisions
mod Tests
