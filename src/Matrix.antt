-- ===== src/Matrix.antt =====
-- The matrix of implementations and scenarios: src/conformance/models.py, scenarios.py and
-- implementations.py.
pub mod Model
pub mod Scenarios
pub mod Implementations
pub mod Choice
