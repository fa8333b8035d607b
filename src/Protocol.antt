-- ===== src/Protocol.antt =====
-- src/conformance/protocol.py: the rules of the protocol that are judged on every case, and the
-- evidence of the protocol scenario. The children hold one verdict each.
pub mod Gate
pub mod TimeExchange
pub mod Activation
pub mod GroupUpdate
pub mod Evidence
