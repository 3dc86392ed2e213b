-- ===== src/Dag/Pow.antt =====
-- pow.rs: the target test on 64-bit limbs, least significant first, and the search for a nonce.
pub mod Product
pub mod Target
pub mod Mining
use kovanica_node.Common.{
  ℕ, zero, suc, ◌+◌, ◌-◌, ◌*◌, ◌/◌, ◌%◌, ◌^◌, Bool, true, false, ◌&&◌, Option, none, some, List, [],
  ◌∷◌, ◌==◌, if◌then◌else◌, take, drop, max,
}
use kovanica_node.Crypto.{Crypto}
use kovanica_node.Dag.{BlockId, Block}
use kovanica_node.Dag.Identity.{with_nonce}

-- `u64::from_be_bytes`, with the bytes read so far.
unfoldable pub read_be : ℕ → List ℕ → ℕ
read_be acc [] = acc
read_be acc (b ∷ bytes) = read_be (acc * 256 + b) bytes

-- The window of eight bytes at `start`.
abbrev pub limb_at : List ℕ → ℕ → ℕ
limb_at bytes start = read_be 0 (take 8 (drop start bytes))

unfoldable pub hash_limbs : BlockId → List ℕ
hash_limbs id =
    limb_at id.bytes 24 ∷ limb_at id.bytes 16 ∷ limb_at id.bytes 8 ∷ limb_at id.bytes 0 ∷ []

unfoldable pub work_limbs : ℕ → List ℕ
work_limbs work = (work % 2 ^ 64) ∷ (work / 2 ^ 64 % 2 ^ 64) ∷ []

-- The `while` loop of a row, on the limbs from `idx` on.
unfoldable pub propagate : ℕ → List ℕ → List ℕ
propagate carry [] = []
propagate carry (p ∷ prod) =
    let sum = (p + carry) % 2 ^ 128 in
    let rest = propagate (sum / 2 ^ 64 % 2 ^ 64) prod in
    if carry == 0 then p ∷ prod else sum % 2 ^ 64 ∷ rest

-- The inner loop, on the limbs from `i + j` on.
unfoldable pub row : ℕ → List ℕ → ℕ → List ℕ → List ℕ
row hi [] carry prod = propagate carry prod
row hi (wj ∷ w) carry [] = []
row hi (wj ∷ w) carry (p ∷ prod) =
    let m = (hi * wj + p + carry) % 2 ^ 128 in m % 2 ^ 64 ∷ row hi w (m / 2 ^ 64 % 2 ^ 64) prod

-- The outer loop, on the limbs from `i` on.
unfoldable pub rows : List ℕ → List ℕ → List ℕ → List ℕ
rows [] w prod = prod
rows (hi ∷ h) w prod = elim (row hi w 0 prod) [ [] ↦ [] | p ∷ rest ↦ p ∷ rows h w rest ]

-- `prod[4] == 0 && prod[5] == 0`
unfoldable pub top_clear : List ℕ → Bool
top_clear prod = elim (drop 4 prod) [ p4 ∷ p5 ∷ rest ↦ (p4 == 0) && (p5 == 0) | _ ↦ false ]

unfoldable pub meets_target : BlockId → ℕ → Bool
meets_target id work =
    top_clear (rows (hash_limbs id) (work_limbs (max work 1)) (0 ∷ 0 ∷ 0 ∷ 0 ∷ 0 ∷ 0 ∷ []))

unfoldable pub is_mined : Block → Bool
is_mined block = meets_target block.id block.work

module _ (crypto : Crypto) where
  -- `find` on the nonces from `nonce` on, of which `left` are left.
  unfoldable pub find_nonce : ℕ → Block → ℕ → Option Block
  find_nonce zero template nonce = none
  find_nonce (suc left) template nonce =
      let rest = find_nonce left template (nonce + 1) in
      let candidate = with_nonce crypto template nonce in
      if meets_target candidate.id template.work then some candidate else rest

  unfoldable pub mine_from : Block → ℕ → Option Block
  mine_from template start = find_nonce (2 ^ 64 - start) template start
