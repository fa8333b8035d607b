-- ===== src/Framing.antt =====
-- src/conformance/chunk_framing.py: the header and the duration of the audio chunks that a case
-- transported. The children hold the frames as adapters record them, the header, the durations and
-- the verdict.
pub mod Frames
pub mod Header
pub mod Durations
pub mod Verdict
