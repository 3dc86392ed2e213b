-- ===== src/Dag/Pow/Mining.antt =====
-- The search for a nonce.
use kovanica_node.Common.{
  ℕ, zero, suc, ◌+◌, ◌-◌, ◌^◌, ◌≤◌, ◌<◌, ◌≡◌, refl, Bool, true, false, Option, none, some, ◌⊎◌, inl,
  inr, arith, if◌then◌else◌, subst,
}
use kovanica_node.Crypto.{Crypto}
use kovanica_node.Dag.{Block}
use kovanica_node.Dag.Identity.{with_nonce}
use kovanica_node.Dag.Pow.{meets_target, find_nonce, mine_from}

module _ (crypto : Crypto) (template : Block) where
  -- The template with this nonce meets the template's target.
  abbrev pub mined : ℕ → Bool
  mined nonce = meets_target (with_nonce crypto template nonce).id template.work

  -- The first nonce that meets the target, or none before `limit`.
  pub data First (start limit : ℕ) : Option Block → Type 0 where
    exhausted : ((j : ℕ) → start ≤ j → j < limit → mined j ≡ false) → First start limit none
    found :
        (n : ℕ)
        → start ≤ n
        → n < limit
        → mined n ≡ true
        → ((j : ℕ) → start ≤ j → j < n → mined j ≡ false)
        → First start limit (some (with_nonce crypto template n))

  split_le : (a b : ℕ) → a ≤ b → (a ≡ b) ⊎ (a + 1 ≤ b)
  split_le a b l = omega (arith, l)

  before :
      (start n : ℕ)
      → mined start ≡ false
      → ((j : ℕ) → start + 1 ≤ j → j < n → mined j ≡ false)
      → (j : ℕ) → start ≤ j
      → j < n
      → mined j ≡ false
  before start n e rest j a b = elim (split_le start j a) [
    | inl same ↦ subst (λ i. mined i ≡ false) same e
    | inr later ↦ rest j later b
  ]

  step :
      (start limit : ℕ) (o : Option Block)
      → mined start ≡ false
      → First (start + 1) limit o
      → First start limit o
  step start limit none e (exhausted rest) = exhausted (before start limit e rest)
  step start limit (some _) e (found n a b m rest) =
      found n (omega (arith, a)) b m (before start n e rest)

  choose :
      (start limit : ℕ) (rest : Option Block) (b : Bool)
      → start < limit
      → mined start ≡ b
      → First (start + 1) limit rest
      → First start limit (if b then some (with_nonce crypto template start) else rest)
  choose start limit rest true l e f =
      found start (omega arith) l e (λ j a b. absurd (omega (arith, a, b)))
  choose start limit rest false l e f = step start limit rest e f

  find_nonce-First :
      (left start : ℕ) → First start (start + left) (find_nonce crypto left template start)
  unfolding find_nonce
  find_nonce-First zero start = exhausted (λ j a b. absurd (omega (arith, a, b)))
  find_nonce-First (suc left) start =
      let shift : start + 1 + left ≡ start + suc left = omega arith in
      choose start (start + suc left) (find_nonce crypto left template (start + 1)) (mined start)
        (omega arith) refl
        (subst (λ n. First (start + 1) n (find_nonce crypto left template (start + 1))) shift
          (find_nonce-First left (start + 1)))

  -- The search returns the template with the first nonce from `start` on that meets its target,
  -- and nothing just when no nonce of 64 bits does.
  pub mine_from-First :
      (start : ℕ) → start < 2 ^ 64 → First start (2 ^ 64) (mine_from crypto template start)
  unfolding mine_from
  mine_from-First start l =
      let all : start + (2 ^ 64 - start) ≡ 2 ^ 64 = omega (arith, l) in
      subst (λ n. First start n (find_nonce crypto (2 ^ 64 - start) template start)) all
        (find_nonce-First (2 ^ 64 - start) start)
