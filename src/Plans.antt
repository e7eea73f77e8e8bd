-- ===== src/Plans.antt =====
-- The plan document and the tables of the plans: src/kavita_ingest/planning.py,
-- src/kavita_ingest/plan_store.py, and the choice of the plan in src/kavita_ingest/apply_engine.py.
pub mod Document
pub mod Rows
pub mod Step
pub mod Import
pub mod Store
pub mod Immutable
pub mod Operations
