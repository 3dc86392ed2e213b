-- ===== src/Script/Thresholds.antt =====
-- The threshold opcodes that `ScriptV2::new` accepts.
use kovanica_node.Common.{
  ℕ, zero, suc, ◌+◌, ◌*◌, ◌≤◌, ◌≡◌, ◌≢◌, refl, subst, Bool, true, false, ◌||◌, List, [], ◌∷◌, ◌++◌,
  ltb, ◌==◌, if◌then◌else◌, length, take, drop, All, arith, length-take, bytes_eq_iff,
}
use kovanica_node.Crypto.{Crypto}
use kovanica_node.Templates.Multisig.{contains}
use kovanica_node.Script.{
  script_v2_max_length, ThresholdOp, ScriptV2, Outcome, done, fails, index_out_of_bounds,
  out_of_fuel, ◌>>=◌,
}
use kovanica_node.Script.Parse.{
  index, read_signatures, read_pubkeys, parse_body, parse_threshold, parse_loop, new,
}

-- `P` holds of the result of a call that returns one.
abbrev pub Post : {A : Type 0} → (A → Type 0) → Outcome A → Type 0
Post P (done a) = P a
Post P (fails _) = Unit
Post P index_out_of_bounds = Unit
Post P out_of_fuel = Unit

Post->>= :
    {A B : Type 0} (P : A → Type 0) (Q : B → Type 0) (x : Outcome A) (f : A → Outcome B)
    → Post P x
    → ((a : A) → P a → Post Q (f a))
    → Post Q (x >>= f)
Post->>= P Q (done a) f p h = h a p
Post->>= P Q (fails _) f p h = tt
Post->>= P Q index_out_of_bounds f p h = tt
Post->>= P Q out_of_fuel f p h = tt

Post-if :
    {A : Type 0} (P : A → Type 0) (b : Bool) (x y : Outcome A)
    → (b ≡ true → Post P x)
    → (b ≡ false → Post P y)
    → Post P (if b then x else y)
Post-if P true x y h k = h refl
Post-if P false x y h k = k refl

Post-done : {A : Type 0} (P : A → Type 0) (x : Outcome A) (a : A) → Post P x → x ≡ done a → P a
Post-done P x a p e = subst (Post P) e p

abbrev pub Differs : List ℕ → List ℕ → Type 0
Differs k j = j ≢ k

abbrev pub Distinct : List (List ℕ) → Type 0
Distinct [] = Unit
Distinct (k ∷ ks) = All (Differs k) ks × Distinct ks

abbrev pub IsSignature : List ℕ → Type 0
IsSignature s = length s ≡ 64

abbrev pub IsKey : Crypto → List ℕ → Type 0
IsKey c k = (length k ≡ 32) × (c.valid_key k ≡ true)

-- What a parsed threshold opcode promises.
pub record IsThreshold (c : Crypto) (t : ThresholdOp) : Type 0 where
  pub one_le : 1 ≤ t.m
  pub m_le : t.m ≤ t.n
  pub n_le : t.n ≤ 16
  pub n_signatures : length t.signatures ≡ t.n
  pub n_keys : length t.pubkeys ≡ t.n
  pub signatures : All IsSignature t.signatures
  pub keys : All (IsKey c) t.pubkeys
  pub distinct : Distinct t.pubkeys

full : (n : ℕ) (bytes : List ℕ) → ltb (length bytes) n ≡ false → length (take n bytes) ≡ n
full n bytes h = ground (arith, length-take n bytes)

read_signatures-Post :
    (n : ℕ) (bytes : List ℕ) (expected actual offset : ℕ)
    → Post
        (λ sigs. (length sigs ≡ n) × All IsSignature sigs)
        (read_signatures n bytes expected actual offset)
unfolding read_signatures
read_signatures-Post zero bytes expected actual offset = (refl, tt)
read_signatures-Post (suc n) bytes expected actual offset =
    Post-if _ (ltb (length bytes) 64) _ _ (λ _. tt)
      (λ long.
        Post->>= _ _ (read_signatures n (drop 64 bytes) expected actual offset) _
          (read_signatures-Post n (drop 64 bytes) expected actual offset)
          (λ sigs p. (omega (arith, p.0), (full 64 bytes long, p.1))))

contains-Differs :
    (seen : List (List ℕ)) (k j : List ℕ)
    → contains (k ∷ seen) j ≡ false
    → (contains seen j ≡ false) × Differs k j
unfolding contains
contains-Differs seen k j h = grind (arith, bytes_eq_iff k j)

contains-All :
    (seen : List (List ℕ)) (k : List ℕ) (keys : List (List ℕ))
    → All (λ j. contains (k ∷ seen) j ≡ false) keys
    → All (λ j. contains seen j ≡ false) keys × All (Differs k) keys
contains-All seen k [] a = (tt, tt)
contains-All seen k (j ∷ keys) (h, a) =
    let one = contains-Differs seen k j h in
    let rest = contains-All seen k keys a in ((one.0, rest.0), (one.1, rest.1))

any : {A : Type 0} (x : Outcome A) → Post (λ _. Unit) x
any (done _) = tt
any (fails _) = tt
any index_out_of_bounds = tt
any out_of_fuel = tt

All-snoc :
    {A : Type 0} (P : A → Type 0) (xs : List A) (x : A) → All P xs → P x → All P (xs ++ x ∷ [])
All-snoc P [] x a p = (p, tt)
All-snoc P (y ∷ xs) x (q, a) p = (q, All-snoc P xs x a p)

module _ (c : Crypto) where
  read_pubkeys-Post :
      (n i : ℕ) (seen : List (List ℕ)) (bytes : List ℕ) (expected actual offset : ℕ)
      → Post
          (λ keys.
            (length keys ≡ n)
            × (All (IsKey c) keys × (All (λ k. contains seen k ≡ false) keys × Distinct keys)))
          (read_pubkeys c n i seen bytes expected actual offset)
  unfolding read_pubkeys
  read_pubkeys-Post zero i seen bytes expected actual offset = (refl, (tt, (tt, tt)))
  read_pubkeys-Post (suc n) i seen bytes expected actual offset =
      let key = take 32 bytes in
      Post-if _ (ltb (length bytes) 32) _ _ (λ _. tt)
        (λ long.
          Post-if _ (c.valid_key key) _ _
            (λ valid.
              Post-if _ (contains seen key) _ _ (λ _. tt)
                (λ new.
                  Post->>= _ _
                    (read_pubkeys c n (suc i) (key ∷ seen) (drop 32 bytes) expected actual offset) _
                    (read_pubkeys-Post n (suc i) (key ∷ seen) (drop 32 bytes) expected actual
                      offset)
                    (λ keys p.
                      let parts = contains-All seen key keys p.1.1.0 in
                      (
                        omega (arith, p.0),
                        (
                          ((full 32 bytes long, valid), p.1.0),
                          ((new, parts.0), (parts.1, p.1.1.1)),
                        ),
                      ))))
            (λ _. tt))

  parse_body-Post :
      (offset m n : ℕ) (bytes : List ℕ) → Post (IsThreshold c) (parse_body c offset m n bytes)
  unfolding parse_body
  parse_body-Post offset m n bytes =
      Post-if _ (ltb m 1 || (ltb n 1 || (ltb n m || ltb 16 n))) _ _ (λ _. tt)
        (λ sizes.
          Post-if _ (ltb (length bytes) (3 + n * 96)) _ _ (λ _. tt)
            (λ long.
              Post->>= _ _ (read_signatures n (drop 3 bytes) (3 + n * 96) (length bytes) offset) _
                (read_signatures-Post n (drop 3 bytes) (3 + n * 96) (length bytes) offset)
                (λ sigs p.
                  Post->>= _ _
                    (read_pubkeys c n 0 [] (drop (3 + n * 64) bytes) (3 + n * 96) (length bytes)
                      offset)
                    _
                    (read_pubkeys-Post n 0 [] (drop (3 + n * 64) bytes) (3 + n * 96) (length bytes)
                      offset)
                    (λ keys q. record {
                      one_le = ground arith;
                      m_le = ground arith;
                      n_le = ground arith;
                      n_signatures = p.0;
                      n_keys = q.0;
                      signatures = p.1;
                      keys = q.1.0;
                      distinct = q.1.1.1;
                    }))))

  parse_threshold-Post :
      (offset : ℕ) (bytes : List ℕ) → Post (IsThreshold c) (parse_threshold c offset bytes)
  unfolding parse_threshold
  parse_threshold-Post offset bytes =
      Post-if _ (ltb (length bytes) 2) _ _ (λ _. tt)
        (λ _.
          Post->>= (λ _. Unit) _ (index bytes 1) _ (any (index bytes 1))
            (λ m _.
              Post->>= (λ _. Unit) _ (index bytes 2) _ (any (index bytes 2))
                (λ n _. parse_body-Post offset m n bytes)))

  parse_loop-Post :
      (fuel offset : ℕ) (bytes : List ℕ) (ops : List ThresholdOp)
      → All (IsThreshold c) ops
      → Post (All (IsThreshold c)) (parse_loop c fuel offset bytes ops)
  unfolding parse_loop
  parse_loop-Post zero offset [] ops a = a
  parse_loop-Post (suc fuel) offset [] ops a = a
  parse_loop-Post zero offset (op ∷ rest) ops a = tt
  parse_loop-Post (suc fuel) offset (op ∷ rest) ops a =
      Post-if _ (op == 0 || ltb 8 op) _ _ (λ _. tt)
        (λ _.
          Post-if _ (op == 8) _ _
            (λ _.
              Post->>= _ _ (parse_threshold c offset (op ∷ rest)) _
                (parse_threshold-Post offset (op ∷ rest))
                (λ t p.
                  parse_loop-Post fuel (offset + (3 + t.n * 96)) (drop (3 + t.n * 96) (op ∷ rest))
                    (ops ++ t ∷ []) (All-snoc _ ops t a p)))
            (λ _. parse_loop-Post fuel (offset + 1) rest ops a))

  abbrev pub IsScript : List ℕ → ScriptV2 → Type 0
  IsScript bytes s =
      (s.bytes ≡ bytes)
      × ((1 ≤ length bytes) × ((length bytes ≤ 1024) × All (IsThreshold c) s.threshold_ops))

  -- An accepted script keeps its bytes, of which it has from 1 to 1024, and each of its threshold
  -- opcodes has 1 ≤ m ≤ n ≤ 16, n signatures of 64 bytes and n valid and distinct keys of 32 bytes.
  pub new-IsScript : (bytes : List ℕ) (s : ScriptV2) → new c bytes ≡ done s → IsScript bytes s
  unfolding new
  new-IsScript [] s e = ground arith
  new-IsScript (b ∷ bytes) s e =
      Post-done (IsScript (b ∷ bytes)) _ s
        (Post-if _ (ltb script_v2_max_length (length (b ∷ bytes))) _ _ (λ _. tt)
          (λ short.
            Post->>= _ _ (parse_loop c (length (b ∷ bytes)) 0 (b ∷ bytes) []) _
              (parse_loop-Post (length (b ∷ bytes)) 0 (b ∷ bytes) [] tt)
              (λ ops p. (refl, (ground arith, (ground arith, p))))))
        e
