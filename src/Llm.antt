-- ===== src/Llm.antt =====
-- The language-model port: bounded retries, app/llm/retry.py.
pub mod Retry
