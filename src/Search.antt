-- ===== src/Search.antt =====
-- The search service (services/search/src/search): what it keeps of the events, and its index.
pub mod Models
pub mod Graph
pub mod Documents
pub mod Indexer
pub mod Crossrefs
pub mod Synonyms
mod Tests
