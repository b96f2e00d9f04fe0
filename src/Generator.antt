-- ===== src/Generator.antt =====
-- internal/generator: the test specification that a language model answers with, and its validation.
pub mod Spec
pub mod Validator
