-- ===== src/Engine.antt =====
-- src/kavita_ingest/apply_engine.py: applying an approved plan, and recovering from a run that was
-- cut off.
pub mod Versions
pub mod Item
pub mod Capabilities
pub mod Eligible
pub mod Abandon
pub mod Prepare
pub mod Execute
pub mod Failures
pub mod Recover
pub mod Runs
pub mod Touch
pub mod NoClobber
pub mod Assurance
pub mod SourceSafe
pub mod Outcome
pub mod Preparation
