-- ===== src/Billing.antt =====
-- The billing service (services/billing/src/billing): its database, the prepaid wallet of each
-- seller, the rates, the outbox of events, the click queue and the jobs around them.
pub mod Models
pub mod Database
pub mod Rates
pub mod Events
pub mod Wallet
pub mod Topup
pub mod Consumer
pub mod Reporting
pub mod History
pub mod Tokens
pub mod Queue
pub mod Drain
pub mod Producer
mod Tests
