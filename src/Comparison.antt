-- ===== src/Comparison.antt =====
-- The comparison of the two summaries of a case: src/conformance/runner.py.
pub mod FirstState
pub mod Outcome
pub mod Audio
pub mod Encoded
pub mod States
pub mod Controller
pub mod Preference
pub mod Dispatch
pub mod Connection
