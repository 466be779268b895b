-- ===== src/Tests.antt =====
-- Concrete runs that apply the theorems, one module for each part of the program.
pub mod Annotation
pub mod Facts
pub mod Store
pub mod Service
pub mod Api
pub mod Rag
pub mod Policy
pub mod Evidence
pub mod Grounds
pub mod Memory
pub mod Verifiers
pub mod Notice
pub mod Retrieve
pub mod Support
