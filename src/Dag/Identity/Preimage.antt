-- ===== src/Dag/Identity/Preimage.antt =====
-- What the identity of a block commits to.
use kovanica_node.Common.{
  ℕ, ◌^◌, ◌<◌, ◌≡◌, refl, sym, ap, ◌∙◌, Option, none, some, List, [], ◌∷◌, ◌++◌, length, flat_map,
  All, to_le_bytes, from_le_bytes, length-to_le_bytes, from_le_bytes-to_le_bytes, arith,
}
use mathlib.Core.List.{append_assoc}
use kovanica_node.Dag.{BlockId, Block}
use kovanica_node.Dag.Identity.{flagged, vrf_preimage, preimage, payload_of, updates}

-- An optional field of `n` bytes.
abbrev pub IsField : ℕ → Option (List ℕ) → Type 0
IsField n none = Unit
IsField n (some field) = length field ≡ n

-- A block without a key has no proof and no output.
abbrev pub IsKeyless : Option (List ℕ) → Option (List ℕ) → Option (List ℕ) → Type 0
IsKeyless none proof output = (proof ≡ none) × (output ≡ none)
IsKeyless (some _) proof output = Unit

-- The widths of the Rust types.
pub record IsBlock (block : Block) : Type 0 where
  pub count : length block.parents < 256 ^ 8
  pub parent : All (λ p. length p.bytes ≡ 32) block.parents
  pub work : block.work < 256 ^ 16
  pub timestamp : block.timestamp_ms < 256 ^ 8
  pub nonce : block.nonce < 256 ^ 8
  pub key : IsField 32 block.vrf_public_key
  pub proof : IsField 96 block.vrf_proof
  pub output : IsField 32 block.vrf_output
  pub keyless : IsKeyless block.vrf_public_key block.vrf_proof block.vrf_output
  pub payload : length (payload_of block) < 256 ^ 8

first_byte : List ℕ → ℕ
first_byte [] = 0
first_byte (x ∷ xs) = x

prefix_cancel :
    (xs ys a b : List ℕ) → length xs ≡ length ys → xs ++ a ≡ ys ++ b → (xs ≡ ys) × (a ≡ b)
prefix_cancel [] [] a b l e = (refl, e)
prefix_cancel [] (y ∷ ys) a b l e = absurd (omega (arith, l))
prefix_cancel (x ∷ xs) [] a b l e = absurd (omega (arith, l))
prefix_cancel (x ∷ xs) (y ∷ ys) a b l e =
    let cut : x ∷ (xs ++ a) ≡ y ∷ (ys ++ b) = e in
    let head : x ≡ y = cc in
    let tail : xs ++ a ≡ ys ++ b = cc in
    let (p, q) = prefix_cancel xs ys a b (omega (arith, l)) tail in (cc, q)

to_le_bytes-cancel :
    (w m n : ℕ) (a b : List ℕ)
    → m < 256 ^ w
    → n < 256 ^ w
    → to_le_bytes w m ++ a ≡ to_le_bytes w n ++ b
    → (m ≡ n) × (a ≡ b)
to_le_bytes-cancel w m n a b lm ln e =
    let (p, q) =
      prefix_cancel (to_le_bytes w m) (to_le_bytes w n) a b
        (length-to_le_bytes w m ∙ sym (length-to_le_bytes w n)) e in
    (
      sym (from_le_bytes-to_le_bytes w m lm)
          ∙ ap from_le_bytes p
          ∙ from_le_bytes-to_le_bytes w n ln,
      q,
    )

ids-cancel :
    (ps qs : List BlockId) (a b : List ℕ)
    → length ps ≡ length qs
    → All (λ p. length p.bytes ≡ 32) ps
    → All (λ p. length p.bytes ≡ 32) qs
    → flat_map (λ (p : BlockId). p.bytes) ps ++ a ≡ flat_map (λ (p : BlockId). p.bytes) qs ++ b
    → (ps ≡ qs) × (a ≡ b)
ids-cancel [] [] a b l hp hq e = (refl, e)
ids-cancel [] (q ∷ qs) a b l hp hq e = absurd (omega (arith, l))
ids-cancel (p ∷ ps) [] a b l hp hq e = absurd (omega (arith, l))
ids-cancel (p ∷ ps) (q ∷ qs) a b l (lp, hp) (lq, hq) e =
    let bytes = flat_map (λ (p : BlockId). p.bytes) in
    let cut : p.bytes ++ (bytes ps ++ a) ≡ q.bytes ++ (bytes qs ++ b) =
      sym (append_assoc p.bytes (bytes ps) a) ∙ e ∙ append_assoc q.bytes (bytes qs) b in
    let (head, tail) =
      prefix_cancel p.bytes q.bytes (bytes ps ++ a) (bytes qs ++ b) (lp ∙ sym lq) cut in
    let (rest, end) = ids-cancel ps qs a b (omega (arith, l)) hp hq tail in
    let same : p ≡ q = ap (λ x. record { bytes = x }) head in (cc, end)

flagged-cancel :
    (n : ℕ) (f g : Option (List ℕ)) (a b : List ℕ)
    → IsField n f
    → IsField n g
    → flagged f ++ a ≡ flagged g ++ b
    → (f ≡ g) × (a ≡ b)
unfolding flagged first_byte
flagged-cancel n none none a b hf hg e = (refl, cc)
flagged-cancel n none (some y) a b hf hg e =
    let no : 0 ≡ 1 = ap first_byte e in absurd (omega (arith, no))
flagged-cancel n (some x) none a b hf hg e =
    let no : 1 ≡ 0 = ap first_byte e in absurd (omega (arith, no))
flagged-cancel n (some x) (some y) a b hf hg e =
    let cut : 1 ∷ (x ++ a) ≡ 1 ∷ (y ++ b) = e in
    let tail : x ++ a ≡ y ++ b = cc in
    let (p, q) = prefix_cancel x y a b (hf ∙ sym hg) tail in (ap some p, q)

regroup : (x y z a : List ℕ) → (x ++ (y ++ (z ++ []))) ++ a ≡ x ++ (y ++ (z ++ a))
regroup [] [] [] a = refl
regroup [] [] (c ∷ z) a = ap (λ (l : List ℕ). c ∷ l) (regroup [] [] z a)
regroup [] (c ∷ y) z a = ap (λ (l : List ℕ). c ∷ l) (regroup [] y z a)
regroup (c ∷ x) y z a = ap (λ (l : List ℕ). c ∷ l) (regroup x y z a)

vrf_preimage-cancel :
    (j k p q o r : Option (List ℕ)) (a b : List ℕ)
    → IsField 32 j × IsField 96 p × IsField 32 o × IsKeyless j p o
    → IsField 32 k × IsField 96 q × IsField 32 r × IsKeyless k q r
    → vrf_preimage j p o ++ a ≡ vrf_preimage k q r ++ b
    → (j ≡ k) × (p ≡ q) × (o ≡ r) × (a ≡ b)
unfolding vrf_preimage first_byte
vrf_preimage-cancel none none p q o r a b (hj, hp, ho, hn) (hk, hq, hr, hm) e =
    (refl, hn.0 ∙ sym hm.0, hn.1 ∙ sym hm.1, cc)
vrf_preimage-cancel none (some k) p q o r a b hj hk e =
    let no : 0 ≡ 1 = ap first_byte e in absurd (omega (arith, no))
vrf_preimage-cancel (some j) none p q o r a b hj hk e =
    let no : 1 ≡ 0 = ap first_byte e in absurd (omega (arith, no))
vrf_preimage-cancel (some j) (some k) p q o r a b (hj, hp, ho, hn) (hk, hq, hr, hm) e =
    let cut : 1 ∷ (updates (j ∷ flagged p ∷ flagged o ∷ []) ++ a)
        ≡ 1 ∷ (updates (k ∷ flagged q ∷ flagged r ∷ []) ++ b) =
      e in
    let tail : (j ++ (flagged p ++ (flagged o ++ []))) ++ a
        ≡ (k ++ (flagged q ++ (flagged r ++ []))) ++ b =
      cc in
    let flat : j ++ (flagged p ++ (flagged o ++ a)) ≡ k ++ (flagged q ++ (flagged r ++ b)) =
      sym (regroup j (flagged p) (flagged o) a) ∙ tail ∙ regroup k (flagged q) (flagged r) b in
    let (u, e1) =
      prefix_cancel j k (flagged p ++ (flagged o ++ a)) (flagged q ++ (flagged r ++ b))
        (hj ∙ sym hk) flat in
    let (v, e2) = flagged-cancel 96 p q (flagged o ++ a) (flagged r ++ b) hp hq e1 in
    let (w, e3) = flagged-cancel 32 o r a b ho hr e2 in (ap some u, v, w, e3)

-- The fields that the identity commits to. A pruned block counts as one with an empty payload.
pub record Agree (x y : Block) : Type 0 where
  pub parents : x.parents ≡ y.parents
  pub work : x.work ≡ y.work
  pub timestamp : x.timestamp_ms ≡ y.timestamp_ms
  pub nonce : x.nonce ≡ y.nonce
  pub key : x.vrf_public_key ≡ y.vrf_public_key
  pub proof : x.vrf_proof ≡ y.vrf_proof
  pub output : x.vrf_output ≡ y.vrf_output
  pub payload : payload_of x ≡ payload_of y

-- Two blocks with one hash input have the same parents in the same order, work, timestamp, nonce,
-- VRF fields and payload.
pub preimage-injective : (x y : Block) → IsBlock x → IsBlock y → preimage x ≡ preimage y → Agree x y
unfolding preimage
preimage-injective x y hx hy e =
    let (count, e1) =
      to_le_bytes-cancel 8 (length x.parents) (length y.parents) _ _ hx.count hy.count e in
    let (parents, e2) = ids-cancel x.parents y.parents _ _ count hx.parent hy.parent e1 in
    let (work, e3) = to_le_bytes-cancel 16 x.work y.work _ _ hx.work hy.work e2 in
    let (timestamp, e4) =
      to_le_bytes-cancel 8 x.timestamp_ms y.timestamp_ms _ _ hx.timestamp hy.timestamp e3 in
    let (nonce, e5) = to_le_bytes-cancel 8 x.nonce y.nonce _ _ hx.nonce hy.nonce e4 in
    let (key, proof, output, e6) =
      vrf_preimage-cancel x.vrf_public_key y.vrf_public_key x.vrf_proof y.vrf_proof x.vrf_output
        y.vrf_output _ _ (hx.key, hx.proof, hx.output, hx.keyless)
        (hy.key, hy.proof, hy.output, hy.keyless) e5 in
    let (size, e7) =
      to_le_bytes-cancel 8 (length (payload_of x)) (length (payload_of y)) _ _ hx.payload hy.payload
        e6 in
    let (payload, end) = prefix_cancel (payload_of x) (payload_of y) [] [] size e7 in
    record {
      parents = parents;
      work = work;
      timestamp = timestamp;
      nonce = nonce;
      key = key;
      proof = proof;
      output = output;
      payload = payload;
    }
