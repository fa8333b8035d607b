-- ===== src/Formats.antt =====
-- src/conformance/declared_formats.py: the audio formats that a client declared, those that a case
-- negotiated, and the three verdicts that join them. The children hold the parts.
pub mod Format
pub mod Declared
pub mod Negotiated
pub mod Verdicts
