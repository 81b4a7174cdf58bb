-- ===== src/Ai.antt =====
-- The service in front of the language models (services/ai/src/ai): its cache, its daily budget and its operations.
pub mod Cache
pub mod Budget
pub mod Json
pub mod Schema
pub mod Service
pub mod Repair
pub mod Extract
pub mod Judge
pub mod Calls
pub mod Stored
pub mod Answers
pub mod Judgements
pub mod Spending
mod Tests
