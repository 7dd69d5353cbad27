-- ===== src/Tests.antt =====
-- Runs at concrete inputs, and the theorems applied where their hypotheses hold.
mod TrackLists
mod Fixtures
mod Moves
mod Access
mod Players
mod Sessions
mod Wakelocks
mod Locks
mod Engines
mod Playbins
mod Exports
mod Clients
mod Metadatas
mod Outputs
