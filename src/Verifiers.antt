-- ===== src/Verifiers.antt =====
-- The optional checks by a language model, whose quotes count only where code finds them:
-- app/consumer/ground_verifier.py and app/consumer/scope_verifier.py.
pub mod Quote
pub mod Ground
pub mod Scope
