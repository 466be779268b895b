-- ===== src/Evidence.antt =====
-- The evidence of a case, app/consumer/service.py: its index in the vector store and what is
-- cleaned up when cases end.
pub mod Facts
pub mod Defs
pub mod Index
pub mod Ingest
pub mod Support
