-- ===== src/Providers.antt =====
-- Requests to the providers of metadata: src/kavita_ingest/provider_store.py and
-- src/kavita_ingest/providers/client.py.
pub mod Store
pub mod Client
pub mod Requests
pub mod Limited
