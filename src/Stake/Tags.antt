-- ===== src/Stake/Tags.antt =====
-- The tags that mark a bond and an unbond.
use kovanica_node.Common.{
  ℕ, ◌+◌, Bool, ◌||◌, not, Option, none, some, ◌↔◌, List, ◌++◌, ◌==◌, if◌then◌else◌, length, take,
  drop, bytes_eq, ◌≡◌, subst, arith, length-append, length-take, length-drop, drop-drop, take-drop,
  bytes_eq_iff, take-append_left, drop-append_left,
}
use kovanica_node.Tx.{AssetId}
use kovanica_node.Stake.{bond_prefix, unbond_prefix}

unfoldable pub bond_tag : AssetId → List ℕ → List ℕ
bond_tag asset_id vrf_pk = bond_prefix ++ (asset_id.bytes ++ vrf_pk)

unfoldable pub parse_bond_tag : List ℕ → Option (AssetId × List ℕ)
parse_bond_tag tag =
    if not (length tag == 4 + 32 + 32) || not (bytes_eq (take 4 tag) bond_prefix)
    then none
    else some (record { bytes = take 32 (drop 4 tag) }, drop (4 + 32) tag)

unfoldable pub is_unbond_tag : List ℕ → Bool
is_unbond_tag tag = bytes_eq tag unbond_prefix

parse_bond_tag-bond_tag :
    (asset_id : AssetId) (vrf_pk : List ℕ)
    → length asset_id.bytes ≡ 32
    → length vrf_pk ≡ 32
    → parse_bond_tag (bond_tag asset_id vrf_pk) ≡ some (asset_id, vrf_pk)
unfolding parse_bond_tag bond_tag bytes_eq
parse_bond_tag-bond_tag asset_id vrf_pk la lv =
    let front : take 32 (asset_id.bytes ++ vrf_pk) ≡ asset_id.bytes =
      subst (λ n. take n (asset_id.bytes ++ vrf_pk) ≡ asset_id.bytes) la
        (take-append_left asset_id.bytes vrf_pk) in
    let back : drop 32 (asset_id.bytes ++ vrf_pk) ≡ vrf_pk =
      subst (λ n. drop n (asset_id.bytes ++ vrf_pk) ≡ vrf_pk) la
        (drop-append_left asset_id.bytes vrf_pk) in
    grind (arith, front, back, length-append asset_id.bytes vrf_pk)

bond_tag-parse_bond_tag :
    (tag : List ℕ) (asset_id : AssetId) (vrf_pk : List ℕ)
    → parse_bond_tag tag ≡ some (asset_id, vrf_pk)
    → (bond_tag asset_id vrf_pk ≡ tag) × ((length asset_id.bytes ≡ 32) × (length vrf_pk ≡ 32))
unfolding parse_bond_tag bond_tag bytes_eq
bond_tag-parse_bond_tag tag asset_id vrf_pk e =
    let size : length tag ≡ 68 = grind arith in
    let start : take 4 tag ≡ bond_prefix = grind (arith, bytes_eq_iff (take 4 tag) bond_prefix) in
    let key : asset_id.bytes ≡ take 32 (drop 4 tag) = grind arith in
    let pk : vrf_pk ≡ drop 36 tag = grind arith in
    let whole : (asset_id.bytes ++ vrf_pk) ≡ drop 4 tag =
      grind (arith, take-drop 32 (drop 4 tag), drop-drop 4 32 tag) in
    (
      grind (arith, whole, start, take-drop 4 tag),
      (
        grind (arith, length-take 32 (drop 4 tag), length-drop 4 tag),
        grind (arith, length-drop 36 tag),
      ),
    )

-- A tag parses to an asset and a key exactly if it is their bond tag and both have 32 bytes.
pub parse_bond_tag_iff :
    (tag : List ℕ) (asset_id : AssetId) (vrf_pk : List ℕ)
    → (parse_bond_tag tag ≡ some (asset_id, vrf_pk))
      ↔ ((bond_tag asset_id vrf_pk ≡ tag) × ((length asset_id.bytes ≡ 32) × (length vrf_pk ≡ 32)))
parse_bond_tag_iff tag asset_id vrf_pk = (
  bond_tag-parse_bond_tag tag asset_id vrf_pk,
  λ h.
      subst (λ t. parse_bond_tag t ≡ some (asset_id, vrf_pk)) h.0
        (parse_bond_tag-bond_tag asset_id vrf_pk h.1.0 h.1.1),
)
