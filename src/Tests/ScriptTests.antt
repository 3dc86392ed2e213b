-- ===== src/Tests/ScriptTests.antt =====
-- The scripts and the spending templates, with a signature scheme in which a signature of a key
-- starts with the key.
use kovanica_node.Common.{
  ℕ, true, List, [], ◌∷◌, ◌++◌, refl, arith, length, replicate, bytes_eq, ◌≡◌,
}
use kovanica_node.Crypto.{verify_pk}
use kovanica_node.Script.Parse
use kovanica_node.Script.Execute
use kovanica_node.Script.{done, index_out_of_bounds, ◌>>=◌, ScriptV2, ThresholdOp}
use kovanica_node.Script.Parse.{new}
use kovanica_node.Script.Execute.{execute}
use kovanica_node.Script.Totality.{Ends, new-execute-Ends}
use kovanica_node.Script.Panics.{new_panics}
use kovanica_node.Script.Thresholds.{IsScript, new-IsScript}
use kovanica_node.Templates.Multisig
use kovanica_node.Templates.Multisig.{MultisigScript, verify_threshold_signatures}
use kovanica_node.Templates.Threshold.{Distinct, Signed, verify_threshold_signatures-ok}
use kovanica_node.Tests.Samples.{toy}

abbrev key : ℕ → List ℕ
key n = replicate 32 n

abbrev sig : ℕ → List ℕ
sig n = replicate 64 n

abbrev sighash : List ℕ
sighash = replicate 32 0

-- A threshold of one key of two.
abbrev one_of_two : List ℕ
one_of_two = 8 ∷ 1 ∷ 2 ∷ sig 5 ++ sig 6 ++ key 5 ++ key 6

abbrev one_of_two_op : ThresholdOp
one_of_two_op = record {
  offset = 0;
  m = 1;
  n = 2;
  signatures = sig 5 ∷ sig 6 ∷ [];
  pubkeys = key 5 ∷ key 6 ∷ [];
}

abbrev one_of_two_script : ScriptV2
one_of_two_script = record { bytes = one_of_two; threshold_ops = one_of_two_op ∷ [] }

parses : new toy one_of_two ≡ done one_of_two_script
unfolding new Parse.parse_loop Parse.parse_threshold Parse.index Parse.parse_body
    Parse.read_signatures Parse.read_pubkeys Multisig.contains bytes_eq
parses = refl

runs : execute toy sighash 0 0 one_of_two_script [] ≡ done true
unfolding execute Execute.run_loop Execute.run_op Execute.op_threshold Execute.find_op
    Execute.count_valid Execute.take_signature verify_pk bytes_eq Execute.result Execute.is_truthy
runs = refl

new-execute-Ends_example : Ends (new toy one_of_two >>= λ script. execute toy sighash 0 0 script [])
new-execute-Ends_example = new-execute-Ends toy sighash 0 0 one_of_two []

new_panics_example : new toy (4 ∷ 7 ∷ 8 ∷ 1 ∷ []) ≡ index_out_of_bounds
new_panics_example =
    new_panics toy (4 ∷ 7 ∷ []) 1 ((omega arith, omega arith), ((omega arith, omega arith), tt))
      (omega arith)

new-IsScript_example : IsScript toy one_of_two one_of_two_script
new-IsScript_example = new-IsScript toy one_of_two one_of_two_script parses

abbrev two_of_three : MultisigScript
two_of_three = record { m = 2; n = 3; pubkeys = key 1 ∷ key 2 ∷ key 3 ∷ [] }

verify_threshold_signatures-ok_example :
    (ks : List ℕ) × ((length ks ≡ 2)
      × (Distinct ks × Signed toy (key 1 ∷ key 2 ∷ key 3 ∷ []) sighash (sig 3 ∷ sig 1 ∷ []) ks))
unfolding verify_threshold_signatures Multisig.check_signatures Multisig.contains bytes_eq
    Multisig.match_signatures Multisig.find_key Multisig.mem verify_pk
verify_threshold_signatures-ok_example =
    verify_threshold_signatures-ok toy two_of_three (sig 3 ∷ sig 1 ∷ []) sighash refl
