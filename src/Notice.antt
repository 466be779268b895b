-- ===== src/Notice.antt =====
-- How a notice is made and when it is refused: `_generate_notice` of `ConsumerCaseService`,
-- app/consumer/service.py.
pub mod Annotation
pub mod Combined
pub mod Citations
pub mod Generate
