-- ===== src/Script/Execute.antt =====
-- `ScriptV2::execute`. The head of the list is the top of the stack.
use kovanica_node.Common.{
  ℕ, zero, suc, ◌+◌, ◌*◌, Bool, true, false, ◌||◌, ◌&&◌, not, Option, none, some, List, [], ◌∷◌,
  ltb, ◌==◌, if◌then◌else◌, length, take, drop, from_le_bytes, bytes_eq,
}
use mathlib.Core.List.{reverse}
use kovanica_node.Crypto.{Crypto, verify_pk}
use kovanica_node.Script.{
  script_v2_step_budget, ThresholdOp, ScriptV2, unknown_opcode, stack_underflow,
  step_budget_exceeded, signature_verification_failed, lock_time_violation, sequence_violation,
  equal_length_mismatch, threshold_not_met, Outcome, done, fails, out_of_fuel, ◌>>=◌,
}

abbrev pub Stack : Type 0
Stack = List (List ℕ)

-- `v.iter().any(|&x| x != 0)`
unfoldable pub is_truthy : List ℕ → Bool
is_truthy [] = false
is_truthy (b ∷ bs) = if b == 0 then is_truthy bs else true

abbrev pub boolean : Bool → List ℕ
boolean b = (if b then 1 else 0) ∷ []

unfoldable pub find_op : List ThresholdOp → ℕ → Option ThresholdOp
find_op [] offset = none
find_op (t ∷ ops) offset = if t.offset == offset then some t else find_op ops offset

module _ (c : Crypto) (sighash : List ℕ) (n_lock_time sequence : ℕ) where
  unfoldable pub op_verify : ℕ → Stack → Outcome Stack
  op_verify offset (sig ∷ pk ∷ stack) =
      if not (length sig == 64)
      then fails (signature_verification_failed offset)
      else if not (length pk == 32)
      then fails (signature_verification_failed offset)
      else if verify_pk c pk sighash sig
      then done (boolean true ∷ stack)
      else fails (signature_verification_failed offset)
  op_verify offset stack = fails (stack_underflow 1 offset 2 (length stack))

  unfoldable pub op_cltv : ℕ → Stack → Outcome Stack
  op_cltv offset [] = fails (stack_underflow 2 offset 1 0)
  op_cltv offset (v ∷ stack) =
      if ltb (length v) 4
      then fails (stack_underflow 2 offset 4 (length v))
      else if ltb n_lock_time (from_le_bytes (take 4 v))
      then fails (lock_time_violation n_lock_time (from_le_bytes (take 4 v)) offset)
      else done stack

  unfoldable pub op_csv : ℕ → Stack → Outcome Stack
  op_csv offset [] = fails (stack_underflow 3 offset 1 0)
  op_csv offset (v ∷ stack) =
      if ltb (length v) 4
      then fails (stack_underflow 3 offset 4 (length v))
      else if ltb sequence (from_le_bytes (take 4 v))
      then fails (sequence_violation sequence (from_le_bytes (take 4 v)) offset)
      else done stack

  unfoldable pub op_hash : ℕ → Stack → Outcome Stack
  op_hash offset [] = fails (stack_underflow 4 offset 1 0)
  op_hash offset (input ∷ stack) = done (c.blake3 input ∷ stack)

  unfoldable pub op_equal : ℕ → Stack → Outcome Stack
  op_equal offset (b ∷ a ∷ stack) =
      if length a == length b
      then done (boolean (bytes_eq a b) ∷ stack)
      else fails (equal_length_mismatch offset)
  op_equal offset stack = fails (stack_underflow 5 offset 2 (length stack))

  unfoldable pub op_and : ℕ → Stack → Outcome Stack
  op_and offset (b ∷ a ∷ stack) = done (boolean (is_truthy a && is_truthy b) ∷ stack)
  op_and offset stack = fails (stack_underflow 6 offset 2 (length stack))

  unfoldable pub op_or : ℕ → Stack → Outcome Stack
  op_or offset (b ∷ a ∷ stack) = done (boolean (is_truthy a || is_truthy b) ∷ stack)
  op_or offset stack = fails (stack_underflow 7 offset 2 (length stack))

  -- The first signature that is not used yet and verifies under the key is marked as used, which
  -- here removes it.
  unfoldable pub take_signature : List ℕ → List (List ℕ) → Option (List (List ℕ))
  take_signature pk [] = none
  take_signature pk (sig ∷ sigs) =
      let rest = take_signature pk sigs in
      if verify_pk c pk sighash sig
      then some sigs
      else elim rest [ none ↦ none | some left ↦ some (sig ∷ left) ]

  unfoldable pub count_valid : List (List ℕ) → List (List ℕ) → ℕ
  count_valid [] sigs = 0
  count_valid (pk ∷ pubkeys) sigs = elim (take_signature pk sigs) [
    | none ↦ count_valid pubkeys sigs
    | some left ↦ suc (count_valid pubkeys left)
  ]

  -- The stack and the bytes of the inline data that are skipped.
  unfoldable pub op_threshold : List ThresholdOp → ℕ → Stack → Outcome (Stack × ℕ)
  op_threshold ops offset stack = elim (find_op ops offset) [
    | none ↦ fails (stack_underflow 8 offset 1 0)
    | some t ↦
        let valid = count_valid t.pubkeys t.signatures in
        if ltb valid t.m
        then fails (threshold_not_met t.m valid offset)
        else done (boolean true ∷ stack, 2 + t.n * 96)
  ]

  abbrev pub plain : Outcome Stack → Outcome (Stack × ℕ)
  plain r = r >>= λ stack. done (stack, 0)

  unfoldable pub run_op : List ThresholdOp → ℕ → ℕ → Stack → Outcome (Stack × ℕ)
  run_op ops op offset stack =
      if op == 1
      then plain (op_verify offset stack)
      else if op == 2
      then plain (op_cltv offset stack)
      else if op == 3
      then plain (op_csv offset stack)
      else if op == 4
      then plain (op_hash offset stack)
      else if op == 5
      then plain (op_equal offset stack)
      else if op == 6
      then plain (op_and offset stack)
      else if op == 7
      then plain (op_or offset stack)
      else if op == 8
      then op_threshold ops offset stack
      else fails (unknown_opcode op offset)

  unfoldable pub run_loop : ℕ → ℕ → List ThresholdOp → ℕ → List ℕ → Stack → Outcome Stack
  run_loop fuel steps ops offset [] stack = done stack
  run_loop zero steps ops offset (op ∷ rest) stack = out_of_fuel
  run_loop (suc fuel) steps ops offset (op ∷ rest) stack =
      let next = run_op ops op offset stack >>= λ r.
      run_loop fuel (suc steps) ops (offset + 1 + r.1) (drop r.1 rest) r.0 in
      if ltb script_v2_step_budget (suc steps)
      then fails (step_budget_exceeded (suc steps) script_v2_step_budget)
      else next

  unfoldable pub result : Stack → Bool
  result (top ∷ []) = is_truthy top
  result stack = false

  unfoldable pub execute : ScriptV2 → List (List ℕ) → Outcome Bool
  execute script witness =
      run_loop (length script.bytes) 0 script.threshold_ops 0 script.bytes (reverse witness)
      >>= λ stack. done (result stack)
