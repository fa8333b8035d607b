-- ===== src/Validator/References.antt =====
-- src/conformance/validator/noncompliance_refs.py: spec_ref_for.
pub mod Pattern
pub mod First
pub mod Second
pub mod Third
pub mod Matching
pub mod Exact
