-- ===== src/Validator.antt =====
-- The validator of a client under test, src/conformance/validator: what it records of a session, and
-- the checks over the record.
pub mod Texts
pub mod Findings
pub mod Record
pub mod Recorder
pub mod References
pub mod Checks
pub mod Suites
