-- ===== src/Templates.antt =====
-- The three spending templates: vaults (vault.rs), hashed time locks (htlc.rs) and threshold
-- multisignatures (multisig.rs) of crates/kovanica-state/src.
pub mod Vault
pub mod Htlc
pub mod Multisig
pub mod RoundTrip
pub mod Threshold
