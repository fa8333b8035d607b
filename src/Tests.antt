-- ===== src/Tests.antt =====
-- Examples: each theorem that has conditions, at values that meet them, and runs of the definitions.
mod Samples
mod FormatsTests
mod GateTests
mod PayloadTests
mod FramingTests
mod MatrixTests
mod PcmTests
mod ComparisonTests
mod ModesTests
mod ValidatorTests
mod SuitesTests
