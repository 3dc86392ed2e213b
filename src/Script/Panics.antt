-- ===== src/Script/Panics.antt =====
-- Where `ScriptV2::new` reads past the end of the script.
use kovanica_node.Common.{
  ℕ, zero, suc, ◌+◌, ◌<◌, ◌≤◌, ◌≡◌, refl, List, [], ◌∷◌, ◌++◌, length, All, arith, length-append,
}
use kovanica_node.Crypto.{Crypto}
use kovanica_node.Script.{script_v2_max_length, ThresholdOp, index_out_of_bounds}
use kovanica_node.Script.Parse.{index, parse_threshold, parse_loop, new}

-- An opcode without inline data.
abbrev pub IsPlain : ℕ → Type 0
IsPlain op = (1 ≤ op) × (op ≤ 7)

module _ (c : Crypto) where
  parse_loop_panics :
      (fuel offset : ℕ) (plain : List ℕ) (m : ℕ) (ops : List ThresholdOp)
      → All IsPlain plain
      → length plain < fuel
      → parse_loop c fuel offset (plain ++ 8 ∷ m ∷ []) ops ≡ index_out_of_bounds
  unfolding parse_loop parse_threshold index
  parse_loop_panics zero offset plain m ops a lt = absurd (omega arith)
  parse_loop_panics (suc fuel) offset [] m ops a lt = refl
  parse_loop_panics (suc fuel) offset (op ∷ plain) m ops (p, a) lt =
      ground (arith, parse_loop_panics fuel (offset + 1) plain m ops a)

  -- A script of plain opcodes that ends with a threshold opcode and one more byte is read past its end.
  pub new_panics :
      (plain : List ℕ) (m : ℕ)
      → All IsPlain plain
      → length plain + 2 ≤ script_v2_max_length
      → new c (plain ++ 8 ∷ m ∷ []) ≡ index_out_of_bounds
  unfolding new
  new_panics [] m a le = ground (arith, parse_loop_panics 2 0 [] m [] a)
  new_panics (op ∷ plain) m a le = ground (
    arith,
    length-append (op ∷ plain) (8 ∷ m ∷ []),
    parse_loop_panics (length ((op ∷ plain) ++ 8 ∷ m ∷ [])) 0 (op ∷ plain) m [] a,
  )
