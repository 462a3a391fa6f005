-- ===== src/Departures.antt =====
-- The departure board of backend/services/departures, over the rows of backend/providers/bus.py.
pub mod Bus
pub mod Classification
pub mod Rows
pub mod Snapshot
pub mod FuzzyMatch
