-- ===== src/Bucket.antt =====
-- The packages bucket and resolver/strategies: what a write does to the sibling set of one key.
pub mod Resolver
pub mod Write
pub mod Tests
