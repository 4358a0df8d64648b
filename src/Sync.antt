-- ===== src/Sync.antt =====
-- src/app/integration/sync.py: from the records of a source to canonical rows and signals. Records
-- reads a record, Upsert writes a row, Run is sync_source.
pub mod Reads
pub mod Specs
pub mod Rows
pub mod References
pub mod Finish
pub mod Records
pub mod Upsert
pub mod Run
pub mod Keyed
pub mod Unique
pub mod Frame
pub mod Signals
pub mod Outcome
pub mod Identity
pub mod Sample
mod Tests
