-- ===== src/Dag/Identity/Lengths.antt =====
-- The length of the hash input.
use kovanica_node.Common.{
  ℕ, ◌+◌, ◌*◌, ◌≡◌, refl, Option, none, some, List, [], ◌∷◌, length, length-append, flat_map, All,
  to_le_bytes, length-to_le_bytes, arith, if◌then◌else◌,
}
use kovanica_node.Dag.{BlockId, Block, present}
use kovanica_node.Dag.Identity.{
  flagged, vrf_preimage, preimage, payload_of, updates, vrf_len, encoded_len,
}
use kovanica_node.Dag.Identity.Preimage.{IsField, IsBlock}

ids-length :
    (ps : List BlockId)
    → All (λ p. length p.bytes ≡ 32) ps
    → length (flat_map (λ (p : BlockId). p.bytes) ps) ≡ length ps * 32
ids-length [] h = omega arith
ids-length (p ∷ ps) (l, h) =
    omega
      (arith, l, ids-length ps h, length-append p.bytes (flat_map (λ (p : BlockId). p.bytes) ps))

lengths : List (List ℕ) → ℕ
lengths [] = 0
lengths (p ∷ ps) = length p + lengths ps

updates-length : (ps : List (List ℕ)) → length (updates ps) ≡ lengths ps
unfolding lengths
updates-length [] = refl
updates-length (p ∷ ps) = omega (arith, updates-length ps, length-append p (updates ps))

flagged-length :
    (n : ℕ) (f : Option (List ℕ))
    → IsField n f
    → length (flagged f) ≡ 1 + (if present f then n else 0)
unfolding flagged
flagged-length n none h = refl
flagged-length n (some f) h = omega (arith, h)

vrf_preimage-length :
    (j p o : Option (List ℕ))
    → IsField 32 j
    → IsField 96 p
    → IsField 32 o
    → length (vrf_preimage j p o)
      ≡ 1
        + (if present j
            then 32 + 1 + (if present p then 96 else 0) + 1 + (if present o then 32 else 0)
            else 0)
unfolding vrf_preimage lengths
vrf_preimage-length none p o hj hp ho = refl
vrf_preimage-length (some j) p o hj hp ho = omega (
  arith,
  updates-length (j ∷ flagged p ∷ flagged o ∷ []),
  hj,
  flagged-length 96 p hp,
  flagged-length 32 o ho,
)

-- `encoded_len` is the length of the identity and the hash input.
pub encoded_len-preimage :
    (block : Block) → IsBlock block → encoded_len block ≡ 32 + length (preimage block)
unfolding preimage encoded_len vrf_len lengths
encoded_len-preimage block h =
    let ids = flat_map (λ (p : BlockId). p.bytes) block.parents in
    let vrf = vrf_preimage block.vrf_public_key block.vrf_proof block.vrf_output in
    omega (
      arith,
      updates-length (
          to_le_bytes 8 (length block.parents)
          ∷ ids
          ∷ to_le_bytes 16 block.work
          ∷ to_le_bytes 8 block.timestamp_ms
          ∷ to_le_bytes 8 block.nonce
          ∷ vrf
          ∷ to_le_bytes 8 (length (payload_of block))
          ∷ payload_of block
          ∷ []),
      ids-length block.parents h.parent,
      length-to_le_bytes 8 (length block.parents),
      length-to_le_bytes 16 block.work,
      length-to_le_bytes 8 block.timestamp_ms,
      length-to_le_bytes 8 block.nonce,
      length-to_le_bytes 8 (length (payload_of block)),
      vrf_preimage-length block.vrf_public_key block.vrf_proof block.vrf_output h.key h.proof
          h.output,
    )
