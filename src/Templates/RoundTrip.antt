-- ===== src/Templates/RoundTrip.antt =====
-- The parsers of the vault and of the hashed time lock against their encoders.
use kovanica_node.Common.{
  ℕ, zero, suc, ◌<◌, ◌^◌, ◌≡◌, refl, ap, subst, from_le_bytes-to_le_bytes, length-to_le_bytes, ◌∙◌,
  List, [], ◌∷◌, ◌++◌, length, take, drop, arith, ok, to_le_bytes, from_le_bytes, take-append_left,
  drop-append_left, length-append, drop-drop,
}
use kovanica_node.Crypto.{Crypto}
use kovanica_node.Templates.Vault
use kovanica_node.Templates.Vault.{VaultScript}
use kovanica_node.Templates.Htlc
use kovanica_node.Templates.Htlc.{HtlcScript}

take-exact : (n : ℕ) (xs ys : List ℕ) → length xs ≡ n → take n (xs ++ ys) ≡ xs
take-exact n xs ys e = subst (λ k. take k (xs ++ ys) ≡ xs) e (take-append_left xs ys)

drop-exact : (n : ℕ) (xs ys : List ℕ) → length xs ≡ n → drop n (xs ++ ys) ≡ ys
drop-exact n xs ys e = subst (λ k. drop k (xs ++ ys) ≡ ys) e (drop-append_left xs ys)

take-all : (n : ℕ) (xs : List ℕ) → length xs ≡ n → take n xs ≡ xs
take-all zero [] e = refl
take-all (suc n) [] e = refl
take-all zero (x ∷ xs) e = absurd (omega arith)
take-all (suc n) (x ∷ xs) e = ap (λ (l : List ℕ). x ∷ l) (take-all n xs (omega arith))

word : (v : ℕ) (rest : List ℕ) → v < 2 ^ 32 → from_le_bytes (take 4 (to_le_bytes 4 v ++ rest)) ≡ v
word v rest h =
    ap from_le_bytes (take-exact 4 (to_le_bytes 4 v) rest (length-to_le_bytes 4 v))
    ∙ from_le_bytes-to_le_bytes 4 v h

module _ (c : Crypto) where
  vault_parse :
      (bytes : List ℕ) (height csv : ℕ) (owner : List ℕ)
      → length bytes ≡ 40
      → from_le_bytes (take 4 bytes) ≡ height
      → from_le_bytes (take 4 (drop 4 bytes)) ≡ csv
      → take 32 (drop 8 bytes) ≡ owner
      → Vault.parse c bytes ≡ Vault.new c height csv owner
  unfolding Vault.parse
  vault_parse bytes height csv owner l h k o = grind arith

  vault_bytes :
      (height csv : ℕ) (owner : List ℕ)
      → length owner ≡ 32
      → height < 2 ^ 32
      → csv < 2 ^ 32
      → Vault.parse c (to_le_bytes 4 height ++ (to_le_bytes 4 csv ++ owner))
        ≡ Vault.new c height csv owner
  vault_bytes height csv owner l h k =
      let a = to_le_bytes 4 height in
      let b = to_le_bytes 4 csv in
      let la = length-to_le_bytes 4 height in
      let lb = length-to_le_bytes 4 csv in
      let d4 = drop-exact 4 a (b ++ owner) la in
      let d8 = drop-drop 4 4 (a ++ (b ++ owner)) ∙ ap (drop 4) d4 ∙ drop-exact 4 b owner lb in
      vault_parse (a ++ (b ++ owner)) height csv owner
        (omega (arith, la, lb, l, length-append a (b ++ owner), length-append b owner))
        (word height _ h) (ap (λ l. from_le_bytes (take 4 l)) d4 ∙ word csv owner k)
        (ap (take 32) d8 ∙ take-all 32 owner l)

  vault_new-fields :
      (height csv : ℕ) (owner : List ℕ) (s : VaultScript)
      → Vault.new c height csv owner ≡ ok s
      → s ≡ record { unlock_height = height; csv = csv; owner_pk = owner }
  unfolding Vault.new
  vault_new-fields height csv owner s e = grind arith

  -- The bytes of a vault that `new` accepts, for words of 32 bits and a key of 32 bytes, parse back
  -- to it.
  pub vault_roundtrip :
      (height csv : ℕ) (owner : List ℕ) (s : VaultScript)
      → height < 2 ^ 32
      → csv < 2 ^ 32
      → length owner ≡ 32
      → Vault.new c height csv owner ≡ ok s
      → Vault.parse c (Vault.to_bytes s) ≡ ok s
  unfolding Vault.to_bytes
  vault_roundtrip height csv owner s h k l e =
      ap (λ (t : VaultScript). Vault.parse c (Vault.to_bytes t))
        (vault_new-fields height csv owner s e)
      ∙ vault_bytes height csv owner l h k
      ∙ e

  htlc_parse :
      (bytes hash recipient sender : List ℕ) (timeout : ℕ)
      → length bytes ≡ 100
      → take 32 bytes ≡ hash
      → take 32 (drop 32 bytes) ≡ recipient
      → take 32 (drop 64 bytes) ≡ sender
      → from_le_bytes (take 4 (drop 96 bytes)) ≡ timeout
      → Htlc.parse c bytes ≡ Htlc.new c hash recipient sender timeout
  unfolding Htlc.parse
  htlc_parse bytes hash recipient sender timeout l h r s t = grind arith

  htlc_bytes :
      (hash recipient sender : List ℕ) (timeout : ℕ)
      → length hash ≡ 32
      → length recipient ≡ 32
      → length sender ≡ 32
      → timeout < 2 ^ 32
      → Htlc.parse c (hash ++ (recipient ++ (sender ++ to_le_bytes 4 timeout)))
        ≡ Htlc.new c hash recipient sender timeout
  htlc_bytes hash recipient sender timeout lh lr ls t =
      let word = to_le_bytes 4 timeout in
      let all = hash ++ (recipient ++ (sender ++ word)) in
      let d1 = drop-exact 32 hash (recipient ++ (sender ++ word)) lh in
      let d2 =
        drop-drop 32 32 all ∙ ap (drop 32) d1 ∙ drop-exact 32 recipient (sender ++ word) lr in
      let d3 = drop-drop 64 32 all ∙ ap (drop 32) d2 ∙ drop-exact 32 sender word ls in
      htlc_parse all hash recipient sender timeout
        (omega (
          arith,
          lh,
          lr,
          ls,
          length-to_le_bytes 4 timeout,
          length-append hash (recipient ++ (sender ++ word)),
          length-append recipient (sender ++ word),
          length-append sender word,
        ))
        (take-exact 32 hash _ lh) (ap (take 32) d1 ∙ take-exact 32 recipient _ lr)
        (ap (take 32) d2 ∙ take-exact 32 sender _ ls)
        (ap (λ l. from_le_bytes (take 4 l)) d3
          ∙ ap from_le_bytes (take-all 4 word (length-to_le_bytes 4 timeout))
          ∙ from_le_bytes-to_le_bytes 4 timeout t)

  htlc_new-fields :
      (hash recipient sender : List ℕ) (timeout : ℕ) (s : HtlcScript)
      → Htlc.new c hash recipient sender timeout ≡ ok s
      → s ≡ record {
        preimage_hash = hash;
        recipient_pk = recipient;
        sender_pk = sender;
        timeout = timeout;
      }
  unfolding Htlc.new
  htlc_new-fields hash recipient sender timeout s e = grind arith

  -- The bytes of a hashed time lock that `new` accepts, for fields of their sizes, parse back to it.
  pub htlc_roundtrip :
      (hash recipient sender : List ℕ) (timeout : ℕ) (s : HtlcScript)
      → length hash ≡ 32
      → length recipient ≡ 32
      → length sender ≡ 32
      → timeout < 2 ^ 32
      → Htlc.new c hash recipient sender timeout ≡ ok s
      → Htlc.parse c (Htlc.to_bytes s) ≡ ok s
  unfolding Htlc.to_bytes
  htlc_roundtrip hash recipient sender timeout s lh lr ls t e =
      ap (λ (x : HtlcScript). Htlc.parse c (Htlc.to_bytes x))
        (htlc_new-fields hash recipient sender timeout s e)
      ∙ htlc_bytes hash recipient sender timeout lh lr ls t
      ∙ e
