-- ===== src/Spv.antt =====
-- crates/kovanica-state/src/spv.rs: what a light client checks. Merkle is the root of a block's
-- transactions and the proof of inclusion, Headers is the chain of headers and the client, and
-- Filter is the filter of a block's addresses.
pub mod Merkle
pub mod Headers
