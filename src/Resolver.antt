-- ===== src/Resolver.antt =====
-- resolution/resolver.py: a batch of extracted claims against the stored ones and each other.
pub mod Topics
pub mod Defs
pub mod Outcomes
pub mod Links
