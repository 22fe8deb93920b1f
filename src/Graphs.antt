-- ===== src/Graphs.antt =====
-- The LangGraph graphs of graphs/*.py. Each is a straight line of nodes, so its run is their
-- composition.
pub mod Checked
pub mod Query
pub mod History
pub mod Neighbourhood
pub mod Ingestion
