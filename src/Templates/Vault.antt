-- ===== src/Templates/Vault.antt =====
-- crates/kovanica-state/src/vault.rs
use kovanica_node.Common.{
  ℕ, ◌&&◌, List, ◌++◌, Result, ok, err, ◌==◌, if◌then◌else◌, length, take, drop, to_le_bytes,
  from_le_bytes,
}
use kovanica_node.Crypto.{Crypto}

abbrev pub vault_template_len : ℕ
vault_template_len = 40

pub data VaultScriptError : Type 0 where
  wrong_length no_lock invalid_owner_key : VaultScriptError

pub record VaultScript : Type 0 where
  pub unlock_height : ℕ
  pub csv : ℕ
  pub owner_pk : List ℕ

module _ (c : Crypto) where
  unfoldable pub new : ℕ → ℕ → List ℕ → Result VaultScriptError VaultScript
  new unlock_height csv owner_pk =
      if unlock_height == 0 && csv == 0
      then err no_lock
      else if c.valid_key owner_pk
      then ok (record { unlock_height = unlock_height; csv = csv; owner_pk = owner_pk })
      else err invalid_owner_key

  unfoldable pub parse : List ℕ → Result VaultScriptError VaultScript
  parse bytes =
      if length bytes == vault_template_len
      then new (from_le_bytes (take 4 bytes)) (from_le_bytes (take 4 (drop 4 bytes)))
          (take 32 (drop 8 bytes))
      else err wrong_length

unfoldable pub to_bytes : VaultScript → List ℕ
to_bytes s = to_le_bytes 4 s.unlock_height ++ (to_le_bytes 4 s.csv ++ s.owner_pk)
