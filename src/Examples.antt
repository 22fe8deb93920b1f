-- ===== src/Examples.antt =====
-- A small memory, with the theorems applied to it.
mod Samples
mod Decisions
mod Writes
mod Answers
mod Sources
mod Proposals
mod Extracts
mod Exports
mod Requests
mod Jobs
mod Matches
