-- ===== src/Journal.antt =====
-- src/kavita_ingest/apply_journal.py: the states, the rows, and the repository over them.
pub mod States
pub mod Rows
pub mod Repository
pub mod Keeping
pub mod Replay
pub mod Sound
pub mod Refused
pub mod Ended
