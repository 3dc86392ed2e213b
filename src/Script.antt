-- ===== src/Script.antt =====
-- crates/kovanica-state/src/script_v2.rs: the bounded stack machine of the version 2 scripts. A read
-- past the end of the script panics in Rust: `index_out_of_bounds` is that outcome. The loops run
-- on fuel, one unit for each opcode; `out_of_fuel` is no outcome of the program. They get
-- the script's length as fuel. A position in the script is the offset with the bytes from there on.
pub mod Parse
pub mod Execute
pub mod Totality
pub mod Panics
pub mod Thresholds
use kovanica_node.Common.{ℕ, List}

abbrev pub script_v2_max_length : ℕ
script_v2_max_length = 1024

abbrev pub script_v2_step_budget : ℕ
script_v2_step_budget = 1000

pub record ThresholdOp : Type 0 where
  pub offset : ℕ
  pub m : ℕ
  pub n : ℕ
  pub signatures : List (List ℕ)
  pub pubkeys : List (List ℕ)

pub record ScriptV2 : Type 0 where
  pub bytes : List ℕ
  pub threshold_ops : List ThresholdOp

pub data ScriptV2Error : Type 0 where
  empty : ScriptV2Error
  unknown_opcode : ℕ → ℕ → ScriptV2Error
  stack_underflow : ℕ → ℕ → ℕ → ℕ → ScriptV2Error
  step_budget_exceeded : ℕ → ℕ → ScriptV2Error
  signature_verification_failed : ℕ → ScriptV2Error
  lock_time_violation : ℕ → ℕ → ℕ → ScriptV2Error
  sequence_violation : ℕ → ℕ → ℕ → ScriptV2Error
  equal_length_mismatch : ℕ → ScriptV2Error
  invalid_threshold_params : ℕ → ℕ → ℕ → ScriptV2Error
  threshold_length_mismatch : ℕ → ℕ → ℕ → ScriptV2Error
  invalid_pubkey : ℕ → ℕ → ScriptV2Error
  duplicate_pubkeys : ℕ → ScriptV2Error
  threshold_not_met : ℕ → ℕ → ℕ → ScriptV2Error
  too_long : ℕ → ℕ → ScriptV2Error

-- How a call ends.
pub data Outcome (A : Type 0) : Type 0 where
  done : A → Outcome A
  fails : ScriptV2Error → Outcome A
  index_out_of_bounds : Outcome A
  out_of_fuel : Outcome A

infixl 5 ◌>>=◌
abbrev pub ◌>>=◌ : {A B : Type 0} → Outcome A → (A → Outcome B) → Outcome B
done a >>= f = f a
fails e >>= f = fails e
index_out_of_bounds >>= f = index_out_of_bounds
out_of_fuel >>= f = out_of_fuel
