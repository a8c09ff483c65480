-- ===== src/Data.antt =====
-- The package data: dotted version vectors (Clock), siblings (Sibling), sets of siblings and their
-- operations (SiblingSet), hashes (Hash) and updates (Update). The other children prove.
pub mod Clock
pub mod Sibling
pub mod SiblingSet
pub mod Hash
pub mod Update
pub mod Tests
