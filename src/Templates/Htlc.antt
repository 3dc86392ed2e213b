-- ===== src/Templates/Htlc.antt =====
-- crates/kovanica-state/src/htlc.rs
use kovanica_node.Common.{
  ℕ, List, ◌++◌, Result, ok, err, ◌==◌, if◌then◌else◌, length, take, drop, to_le_bytes,
  from_le_bytes, bytes_eq,
}
use kovanica_node.Crypto.{Crypto}

abbrev pub htlc_script_len : ℕ
htlc_script_len = 100

pub data HtlcScriptError : Type 0 where
  wrong_length invalid_recipient_key invalid_sender_key duplicate_keys : HtlcScriptError

pub record HtlcScript : Type 0 where
  pub preimage_hash : List ℕ
  pub recipient_pk : List ℕ
  pub sender_pk : List ℕ
  pub timeout : ℕ

module _ (c : Crypto) where
  unfoldable pub new : List ℕ → List ℕ → List ℕ → ℕ → Result HtlcScriptError HtlcScript
  new preimage_hash recipient_pk sender_pk timeout =
      if c.valid_key recipient_pk
      then (if c.valid_key sender_pk
          then (if bytes_eq recipient_pk sender_pk
              then err duplicate_keys
              else ok (record {
                preimage_hash = preimage_hash;
                recipient_pk = recipient_pk;
                sender_pk = sender_pk;
                timeout = timeout;
              }))
          else err invalid_sender_key)
      else err invalid_recipient_key

  unfoldable pub parse : List ℕ → Result HtlcScriptError HtlcScript
  parse bytes =
      if length bytes == htlc_script_len
      then new (take 32 bytes) (take 32 (drop 32 bytes)) (take 32 (drop 64 bytes))
          (from_le_bytes (take 4 (drop 96 bytes)))
      else err wrong_length

unfoldable pub to_bytes : HtlcScript → List ℕ
to_bytes s = s.preimage_hash ++ (s.recipient_pk ++ (s.sender_pk ++ to_le_bytes 4 s.timeout))
