-- ===== src/Graphs/History.antt =====
-- graphs/history.py: why a decision shifted, and what context an object hangs off.
pub mod Views
pub mod Shift
pub mod Context
