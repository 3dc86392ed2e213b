-- ===== src/Script/Parse.antt =====
-- `ScriptV2::new`.
use kovanica_node.Common.{
  ℕ, zero, suc, ◌+◌, ◌*◌, ◌||◌, none, some, List, [], ◌∷◌, ◌++◌, ltb, ◌==◌, if◌then◌else◌, length,
  take, drop, get_elem?,
}
use kovanica_node.Crypto.{Crypto}
use kovanica_node.Templates.Multisig.{contains}
use kovanica_node.Script.{
  script_v2_max_length, ThresholdOp, ScriptV2, empty, unknown_opcode, stack_underflow,
  invalid_threshold_params, threshold_length_mismatch, invalid_pubkey, duplicate_pubkeys, too_long,
  Outcome, done, fails, index_out_of_bounds, out_of_fuel, ◌>>=◌,
}

-- `bytes[i]`
unfoldable pub index : List ℕ → ℕ → Outcome ℕ
index bytes i = elim (get_elem? bytes i) [ none ↦ index_out_of_bounds | some b ↦ done b ]

-- The signatures at `sig_start + i * 64`, each behind its own length test.
unfoldable pub read_signatures : ℕ → List ℕ → ℕ → ℕ → ℕ → Outcome (List (List ℕ))
read_signatures zero bytes expected actual offset = done []
read_signatures (suc n) bytes expected actual offset =
    let rest = read_signatures n (drop 64 bytes) expected actual offset >>= λ sigs.
    done (take 64 bytes ∷ sigs) in
    if ltb (length bytes) 64 then fails (threshold_length_mismatch expected actual offset) else rest

module _ (c : Crypto) where
  -- The keys at `pubkey_start + i * 32`; `seen` holds those that were read.
  unfoldable pub read_pubkeys : ℕ → ℕ → List (List ℕ) → List ℕ → ℕ → ℕ → ℕ → Outcome (List (List ℕ))
  read_pubkeys zero i seen bytes expected actual offset = done []
  read_pubkeys (suc n) i seen bytes expected actual offset =
      let rest =
        read_pubkeys n (suc i) (take 32 bytes ∷ seen) (drop 32 bytes) expected actual offset
        >>= λ keys. done (take 32 bytes ∷ keys) in
      if ltb (length bytes) 32
      then fails (threshold_length_mismatch expected actual offset)
      else if c.valid_key (take 32 bytes)
      then (if contains seen (take 32 bytes) then fails (duplicate_pubkeys offset) else rest)
      else fails (invalid_pubkey i offset)

  unfoldable pub parse_body : ℕ → ℕ → ℕ → List ℕ → Outcome ThresholdOp
  parse_body offset m n bytes =
      let expected_len = 3 + n * 96 in
      if ltb m 1 || (ltb n 1 || (ltb n m || ltb 16 n))
      then fails (invalid_threshold_params m n offset)
      else if ltb (length bytes) expected_len
      then fails (threshold_length_mismatch expected_len (length bytes) offset)
      else (do
        signatures ← read_signatures n (drop 3 bytes) expected_len (length bytes) offset
        pubkeys ← read_pubkeys n 0 [] (drop (3 + n * 64) bytes) expected_len (length bytes) offset
        done (record { offset = offset; m = m; n = n; signatures = signatures; pubkeys = pubkeys }))

  -- The test lets two bytes through, and the third is then read.
  unfoldable pub parse_threshold : ℕ → List ℕ → Outcome ThresholdOp
  parse_threshold offset bytes =
      if ltb (length bytes) 2
      then fails (stack_underflow 8 offset 2 (length bytes))
      else (do m ← index bytes 1; n ← index bytes 2; parse_body offset m n bytes)

  unfoldable pub parse_loop : ℕ → ℕ → List ℕ → List ThresholdOp → Outcome (List ThresholdOp)
  parse_loop fuel offset [] ops = done ops
  parse_loop zero offset (op ∷ rest) ops = out_of_fuel
  parse_loop (suc fuel) offset (op ∷ rest) ops =
      let threshold = parse_threshold offset (op ∷ rest) >>= λ t.
      parse_loop fuel (offset + (3 + t.n * 96)) (drop (3 + t.n * 96) (op ∷ rest)) (ops ++ t ∷ []) in
      let next = parse_loop fuel (offset + 1) rest ops in
      if op == 0 || ltb 8 op
      then fails (unknown_opcode op offset)
      else if op == 8
      then threshold
      else next

  unfoldable pub new : List ℕ → Outcome ScriptV2
  new [] = fails empty
  new (b ∷ bytes) =
      if ltb script_v2_max_length (length (b ∷ bytes))
      then fails (too_long (length (b ∷ bytes)) script_v2_max_length)
      else parse_loop (length (b ∷ bytes)) 0 (b ∷ bytes) [] >>= λ ops.
          done (record { bytes = b ∷ bytes; threshold_ops = ops })
