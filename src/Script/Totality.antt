-- ===== src/Script/Totality.antt =====
-- The fuel of `ScriptV2::new` and `ScriptV2::execute`.
use kovanica_node.Common.{
  ℕ, zero, suc, ◌+◌, ◌*◌, ◌≤◌, Bool, true, false, ◌||◌, none, some, List, [], ◌∷◌, ◌++◌, ltb, ◌==◌,
  if◌then◌else◌, length, take, drop, get_elem?, length-drop, arith,
}
use mathlib.Core.List.{reverse}
use kovanica_node.Crypto.{Crypto}
use kovanica_node.Templates.Multisig.{contains}
use kovanica_node.Script.{
  script_v2_max_length, script_v2_step_budget, ThresholdOp, ScriptV2, Outcome, done, fails,
  index_out_of_bounds, out_of_fuel, ◌>>=◌,
}
use kovanica_node.Script.Parse.{
  index, read_signatures, read_pubkeys, parse_body, parse_threshold, parse_loop, new,
}
use kovanica_node.Script.Execute.{
  Stack, op_verify, op_cltv, op_csv, op_hash, op_equal, op_and, op_or, op_threshold, run_op,
  run_loop, execute, plain,
}

-- The call ends as a call of the program can: it did not run out of fuel.
abbrev pub Ends : {A : Type 0} → Outcome A → Type 0
Ends (done _) = Unit
Ends (fails _) = Unit
Ends index_out_of_bounds = Unit
Ends out_of_fuel = ⊥

Ends->>= :
    {A B : Type 0} (x : Outcome A) (f : A → Outcome B)
    → Ends x
    → ((a : A) → Ends (f a))
    → Ends (x >>= f)
Ends->>= (done a) f e h = h a
Ends->>= (fails _) f e h = tt
Ends->>= index_out_of_bounds f e h = tt
Ends->>= out_of_fuel f e h = absurd e

Ends-if : {A : Type 0} (b : Bool) (x y : Outcome A) → Ends x → Ends y → Ends (if b then x else y)
Ends-if true x y h k = h
Ends-if false x y h k = k

index-Ends : (bytes : List ℕ) (i : ℕ) → Ends (index bytes i)
unfolding index
index-Ends bytes i =
    elim (get_elem? bytes i)
      as (λ o. Ends (elim o [ none ↦ index_out_of_bounds | some b ↦ done b ])) [
        | none ↦ tt
        | some _ ↦ tt
      ]

read_signatures-Ends :
    (n : ℕ) (bytes : List ℕ) (expected actual offset : ℕ)
    → Ends (read_signatures n bytes expected actual offset)
unfolding read_signatures
read_signatures-Ends zero bytes expected actual offset = tt
read_signatures-Ends (suc n) bytes expected actual offset = Ends-if (ltb (length bytes) 64) _ _ tt (
    Ends->>= (read_signatures n (drop 64 bytes) expected actual offset) _
      (read_signatures-Ends n (drop 64 bytes) expected actual offset) (λ _. tt))

module _ (c : Crypto) where
  read_pubkeys-Ends :
      (n i : ℕ) (seen : List (List ℕ)) (bytes : List ℕ) (expected actual offset : ℕ)
      → Ends (read_pubkeys c n i seen bytes expected actual offset)
  unfolding read_pubkeys
  read_pubkeys-Ends zero i seen bytes expected actual offset = tt
  read_pubkeys-Ends (suc n) i seen bytes expected actual offset =
      Ends-if (ltb (length bytes) 32) _ _ tt (
        Ends-if (c.valid_key (take 32 bytes)) _ _
          (Ends-if (contains seen (take 32 bytes)) _ _ tt (
            Ends->>=
              (read_pubkeys c n (suc i) (take 32 bytes ∷ seen) (drop 32 bytes) expected actual
                offset)
              _
              (read_pubkeys-Ends n (suc i) (take 32 bytes ∷ seen) (drop 32 bytes) expected actual
                offset)
              (λ _. tt)))
          tt)

  parse_threshold-Ends : (offset : ℕ) (bytes : List ℕ) → Ends (parse_threshold c offset bytes)
  unfolding parse_threshold parse_body
  parse_threshold-Ends offset bytes = Ends-if (ltb (length bytes) 2) _ _ tt (
      Ends->>= (index bytes 1) _ (index-Ends bytes 1) λ m.
        Ends->>= (index bytes 2) _ (index-Ends bytes 2) λ n.
          Ends-if (ltb m 1 || (ltb n 1 || (ltb n m || ltb 16 n))) _ _ tt (
            Ends-if (ltb (length bytes) (3 + n * 96)) _ _ tt (
              Ends->>= (read_signatures n (drop 3 bytes) (3 + n * 96) (length bytes) offset) _
                (read_signatures-Ends n (drop 3 bytes) (3 + n * 96) (length bytes) offset)
                λ _.
                  Ends->>=
                    (read_pubkeys c n 0 [] (drop (3 + n * 64) bytes) (3 + n * 96) (length bytes)
                      offset)
                    _
                    (read_pubkeys-Ends n 0 [] (drop (3 + n * 64) bytes) (3 + n * 96) (length bytes)
                      offset)
                    (λ _. tt))))

  parse_loop-Ends :
      (fuel offset : ℕ) (bytes : List ℕ) (ops : List ThresholdOp)
      → length bytes ≤ fuel
      → Ends (parse_loop c fuel offset bytes ops)
  unfolding parse_loop
  parse_loop-Ends zero offset [] ops le = tt
  parse_loop-Ends (suc fuel) offset [] ops le = tt
  parse_loop-Ends zero offset (op ∷ rest) ops le = absurd (omega arith)
  parse_loop-Ends (suc fuel) offset (op ∷ rest) ops le = Ends-if (op == 0 || ltb 8 op) _ _ tt (
      Ends-if (op == 8) _ _
        (Ends->>= (parse_threshold c offset (op ∷ rest)) _ (parse_threshold-Ends offset (op ∷ rest))
          λ t.
            parse_loop-Ends fuel (offset + (3 + t.n * 96)) (drop (3 + t.n * 96) (op ∷ rest))
              (ops ++ t ∷ []) (omega (arith, length-drop (3 + t.n * 96) (op ∷ rest))))
        (parse_loop-Ends fuel (offset + 1) rest ops (omega arith)))

  pub new-Ends : (bytes : List ℕ) → Ends (new c bytes)
  unfolding new
  new-Ends [] = tt
  new-Ends (b ∷ bytes) = Ends-if (ltb script_v2_max_length (length (b ∷ bytes))) _ _ tt (
      Ends->>= (parse_loop c (length (b ∷ bytes)) 0 (b ∷ bytes) []) _
        (parse_loop-Ends (length (b ∷ bytes)) 0 (b ∷ bytes) [] (omega arith)) (λ _. tt))

  module _ (sighash : List ℕ) (n_lock_time sequence : ℕ) where
    plain-Ends : (r : Outcome Stack) → Ends r → Ends (plain c sighash n_lock_time sequence r)
    plain-Ends r e = Ends->>= r _ e (λ _. tt)

    op_verify-Ends :
        (offset : ℕ) (stack : Stack) → Ends (op_verify c sighash n_lock_time sequence offset stack)
    unfolding op_verify
    op_verify-Ends offset [] = tt
    op_verify-Ends offset (_ ∷ []) = tt
    op_verify-Ends offset (sig ∷ pk ∷ stack) = ground arith

    op_cltv-Ends :
        (offset : ℕ) (stack : Stack) → Ends (op_cltv c sighash n_lock_time sequence offset stack)
    unfolding op_cltv
    op_cltv-Ends offset [] = tt
    op_cltv-Ends offset (v ∷ stack) = ground arith

    op_csv-Ends :
        (offset : ℕ) (stack : Stack) → Ends (op_csv c sighash n_lock_time sequence offset stack)
    unfolding op_csv
    op_csv-Ends offset [] = tt
    op_csv-Ends offset (v ∷ stack) = ground arith

    op_hash-Ends :
        (offset : ℕ) (stack : Stack) → Ends (op_hash c sighash n_lock_time sequence offset stack)
    unfolding op_hash
    op_hash-Ends offset [] = tt
    op_hash-Ends offset (v ∷ stack) = ground arith

    op_equal-Ends :
        (offset : ℕ) (stack : Stack) → Ends (op_equal c sighash n_lock_time sequence offset stack)
    unfolding op_equal
    op_equal-Ends offset [] = tt
    op_equal-Ends offset (_ ∷ []) = tt
    op_equal-Ends offset (b ∷ a ∷ stack) = ground arith

    op_and-Ends :
        (offset : ℕ) (stack : Stack) → Ends (op_and c sighash n_lock_time sequence offset stack)
    unfolding op_and
    op_and-Ends offset [] = tt
    op_and-Ends offset (_ ∷ []) = tt
    op_and-Ends offset (b ∷ a ∷ stack) = ground arith

    op_or-Ends :
        (offset : ℕ) (stack : Stack) → Ends (op_or c sighash n_lock_time sequence offset stack)
    unfolding op_or
    op_or-Ends offset [] = tt
    op_or-Ends offset (_ ∷ []) = tt
    op_or-Ends offset (b ∷ a ∷ stack) = ground arith

    op_threshold-Ends :
        (ops : List ThresholdOp) (offset : ℕ) (stack : Stack)
        → Ends (op_threshold c sighash n_lock_time sequence ops offset stack)
    unfolding op_threshold
    op_threshold-Ends ops offset stack = ground arith

    run_op-Ends :
        (ops : List ThresholdOp) (op offset : ℕ) (stack : Stack)
        → Ends (run_op c sighash n_lock_time sequence ops op offset stack)
    unfolding run_op
    run_op-Ends ops op offset stack =
        Ends-if (op == 1) _ _ (plain-Ends _ (op_verify-Ends offset stack)) (
          Ends-if (op == 2) _ _ (plain-Ends _ (op_cltv-Ends offset stack)) (
            Ends-if (op == 3) _ _ (plain-Ends _ (op_csv-Ends offset stack)) (
              Ends-if (op == 4) _ _ (plain-Ends _ (op_hash-Ends offset stack)) (
                Ends-if (op == 5) _ _ (plain-Ends _ (op_equal-Ends offset stack)) (
                  Ends-if (op == 6) _ _ (plain-Ends _ (op_and-Ends offset stack)) (
                    Ends-if (op == 7) _ _ (plain-Ends _ (op_or-Ends offset stack))
                      (Ends-if (op == 8) _ _ (op_threshold-Ends ops offset stack) tt)))))))

    run_loop-Ends :
        (fuel steps : ℕ) (ops : List ThresholdOp) (offset : ℕ) (bytes : List ℕ) (stack : Stack)
        → length bytes ≤ fuel
        → Ends (run_loop c sighash n_lock_time sequence fuel steps ops offset bytes stack)
    unfolding run_loop
    run_loop-Ends zero steps ops offset [] stack le = tt
    run_loop-Ends (suc fuel) steps ops offset [] stack le = tt
    run_loop-Ends zero steps ops offset (op ∷ rest) stack le = absurd (omega arith)
    run_loop-Ends (suc fuel) steps ops offset (op ∷ rest) stack le =
        Ends-if (ltb script_v2_step_budget (suc steps)) _ _ tt (
          Ends->>= (run_op c sighash n_lock_time sequence ops op offset stack) _
            (run_op-Ends ops op offset stack)
            (λ r.
              run_loop-Ends fuel (suc steps) ops (offset + 1 + r.1) (drop r.1 rest) r.0
                (omega (arith, length-drop r.1 rest))))

    pub execute-Ends :
        (script : ScriptV2) (witness : List (List ℕ))
        → Ends (execute c sighash n_lock_time sequence script witness)
    unfolding execute
    execute-Ends script witness =
        Ends->>=
          (run_loop c sighash n_lock_time sequence (length script.bytes) 0 script.threshold_ops 0
            script.bytes (reverse witness))
          _
          (run_loop-Ends (length script.bytes) 0 script.threshold_ops 0 script.bytes
            (reverse witness) (omega arith))
          (λ _. tt)

-- Parsing bytes and running the script never runs out of fuel: both come to a result, an error or
-- a panic.
pub new-execute-Ends :
    (c : Crypto) (sighash : List ℕ) (n_lock_time sequence : ℕ) (bytes : List ℕ)
    (witness : List (List ℕ))
    → Ends (new c bytes >>= λ script. execute c sighash n_lock_time sequence script witness)
new-execute-Ends c sighash n_lock_time sequence bytes witness =
    Ends->>= (new c bytes) _ (new-Ends c bytes)
      (λ script. execute-Ends c sighash n_lock_time sequence script witness)
