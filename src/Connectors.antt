-- ===== src/Connectors.antt =====
-- connectors/*.py: what turns a source's data into records.
pub mod Chunks
pub mod Diffs
pub mod Json
pub mod Registry
pub mod Chatgpt
pub mod Fixtures
pub mod Builtins
