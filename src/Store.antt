-- ===== src/Store.antt =====
-- The ephemeral case repository, app/consumer/store.py: case records behind possession tokens.
-- What another part owns (facts, evidence, notices) is opaque here, as it is to that file.
pub mod Defs
pub mod Bounds
pub mod Reachable
pub mod Access
pub mod Expiry
