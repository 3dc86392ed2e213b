-- ===== src/Crypto.antt =====
-- The cryptography that the ledger calls: BLAKE3 and strict Ed25519, which are third-party code.
-- `verify_pk` is crates/kovanica-state/src/keys.rs.
use kovanica_node.Common.{ℕ, Bool, false, List, ◌==◌, if◌then◌else◌, drop}
use kovanica_node.Tx.{Address, version}

pub record Crypto : Type 0 where
  -- `blake3::hash`
  pub blake3 : List ℕ → List ℕ
  -- `VerifyingKey::from_bytes(key).is_ok()`
  pub valid_key : List ℕ → Bool
  -- `key.verify_strict(message, signature).is_ok()`
  pub verify_strict : List ℕ → List ℕ → List ℕ → Bool

unfoldable pub payload : Address → List ℕ
payload a = drop 1 a.bytes

unfoldable pub is_p2pk : Address → Bool
is_p2pk a = version a == 0

unfoldable pub verify_pk : Crypto → List ℕ → List ℕ → List ℕ → Bool
verify_pk c pubkey message signature =
    if c.valid_key pubkey then c.verify_strict pubkey message signature else false

unfoldable pub verify : Crypto → Address → List ℕ → List ℕ → Bool
verify c address message signature =
    if is_p2pk address then verify_pk c (payload address) message signature else false
