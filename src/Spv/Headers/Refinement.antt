-- ===== src/Spv/Headers/Refinement.antt =====
-- The client refines a chain of headers that grows at its tip.
use kovanica_node.Common.{
  ◌≤◌, ◌⊎◌, sym, false, length, map, ltb, Bool-cases, ℕ, ◌+◌, ◌%◌, ◌^◌, ◌<◌, ◌≡◌, refl, ap, ◌∙◌,
  Bool, true, Option, none, some, List, [], ◌∷◌, Result, ok, err, inl, inr, arith, Result-cases,
}
use kovanica_node.Common.Map
use kovanica_node.Common.Map.{Map, nat_eq, get-insert}
use kovanica_node.Dag.{block_eq_iff}
use kovanica_node.Dag.Difficulty.{Retarget, next_work}
use kovanica_node.Dag.Pow.{meets_target}
use kovanica_node.Spv.Headers.{
  sample_of, verify_difficulty, BlockHeader, SpvClient, SpvError, verify_pow, check_retarget,
  needed, collect, reverse_headers, client_window, check_header, add_header, new,
}
use kovanica_node.Spv.Headers.Chain.{Follows, IsChain, at_height, recent, collect-take}

-- The client of a chain `tip ∷ older`.
pub record Represents (client : SpvClient) (tip : BlockHeader) (older : List BlockHeader)
    : Type 0 where
  pub tipped : client.tip ≡ some tip
  pub stored : (n : ℕ) → Map.get n client.headers ≡ at_height n (tip ∷ older)
  pub chained : IsChain (tip ∷ older)

-- With fewer headers than the policy reads, the work is at or above the floor; else it is the
-- retargeted work.
abbrev pub IsDifficult : Option Retarget → BlockHeader → List BlockHeader → Type 0
IsDifficult none h window = Unit
IsDifficult (some policy) h window =
    ((length window < needed policy) × (policy.min_work ≤ h.work))
    ⊎ ((needed policy ≤ length window) × (h.work ≡ next_work policy (map sample_of window)))

-- What a header must have to extend the chain.
pub record Extends (require_pow : Bool) (retarget : Option Retarget) (h tip : BlockHeader)
    (older : List BlockHeader) : Type 0 where
  pub follows : Follows h tip
  pub pow : (require_pow ≡ false) ⊎ (meets_target h.id h.work ≡ true)
  pub difficulty : IsDifficult retarget h (recent retarget (tip ∷ older))

verify_pow-passed :
    (h : BlockHeader) (require_pow : Bool)
    → verify_pow h require_pow ≡ true
    → (require_pow ≡ false) ⊎ (meets_target h.id h.work ≡ true)
unfolding verify_pow
verify_pow-passed h true e = inr e
verify_pow-passed h false e = inl refl

passed-verify_pow :
    (h : BlockHeader) (require_pow : Bool)
    → (require_pow ≡ false) ⊎ (meets_target h.id h.work ≡ true)
    → verify_pow h require_pow ≡ true
unfolding verify_pow
passed-verify_pow h require_pow (inl e) = ground (arith, e)
passed-verify_pow h require_pow (inr e) = ground (arith, e)

check_retarget-IsDifficult :
    (retarget : Option Retarget) (h : BlockHeader) (window : List BlockHeader)
    → check_retarget retarget h window ≡ true
    → IsDifficult retarget h window
unfolding check_retarget verify_difficulty
check_retarget-IsDifficult none h window e = tt
check_retarget-IsDifficult (some policy) h window e =
    elim (Bool-cases (ltb (length window) (needed policy))) [
      | inl few ↦ inl (ground (arith, few), ground (arith, e, few))
      | inr full ↦ inr (ground (arith, full), ground (arith, e, full))
    ]

IsDifficult-check_retarget :
    (retarget : Option Retarget) (h : BlockHeader) (window : List BlockHeader)
    → IsDifficult retarget h window
    → check_retarget retarget h window ≡ true
unfolding check_retarget verify_difficulty
IsDifficult-check_retarget none h window d = refl
IsDifficult-check_retarget (some policy) h window (inl (few, work)) = ground (arith, few, work)
IsDifficult-check_retarget (some policy) h window (inr (full, work)) = ground (arith, full, work)

window_lem :
    (client : SpvClient) (tip : BlockHeader) (older : List BlockHeader)
    → Represents client tip older
    → client_window client tip ≡ recent client.retarget (tip ∷ older)
unfolding client_window
window_lem client tip older r = go client.retarget
  where
    go :
        (retarget : Option Retarget)
        → elim retarget [
          | none ↦ []
          | some policy ↦ reverse_headers (collect client.headers tip.height (needed policy))
        ]
          ≡ recent retarget (tip ∷ older)
    go none = refl
    go (some policy) = ap reverse_headers (
        collect-take client.headers tip.height (needed policy) tip older r.chained refl
          (λ n l. r.stored n))

module _ (client : SpvClient) (h tip : BlockHeader) (older : List BlockHeader)
    (l : tip.height + 1 < 2 ^ 64)
    (w : client_window client tip ≡ recent client.retarget (tip ∷ older)) where
  check_header-Extends :
      check_header client tip h ≡ ok tt → Extends client.require_pow client.retarget h tip older
  unfolding check_header
  check_header-Extends e =
      let m : (tip.height + 1) % 2 ^ 64 ≡ tip.height + 1 = omega (arith, l) in
      record {
        follows = record {
          height = ground (arith, e, m);
          prev_hash = ground (arith, e, block_eq_iff h.prev_hash tip.id);
          timestamp_ms = ground (arith, e);
          chain_blue_work = ground (arith, e);
        };
        pow = verify_pow-passed h client.require_pow (ground (arith, e));
        difficulty =
            check_retarget-IsDifficult client.retarget h _
              (ap (check_retarget client.retarget h) (sym w) ∙ ground (arith, e));
      }

  Extends-check_header :
      Extends client.require_pow client.retarget h tip older → check_header client tip h ≡ ok tt
  unfolding check_header
  Extends-check_header x =
      let m : (tip.height + 1) % 2 ^ 64 ≡ tip.height + 1 = omega (arith, l) in
      ground (
        arith,
        m,
        w,
        block_eq_iff h.prev_hash tip.id,
        x.follows.height,
        x.follows.prev_hash,
        x.follows.timestamp_ms,
        x.follows.chain_blue_work,
        passed-verify_pow h client.require_pow x.pow,
        IsDifficult-check_retarget client.retarget h (recent client.retarget (tip ∷ older))
            x.difficulty,
      )

-- What `add_header` does to the client of a chain.
pub data Added (client : SpvClient) (h tip : BlockHeader) (older : List BlockHeader)
    : Result SpvError (SpvClient × Bool) → Type 0 where
  extended :
      {client' : SpvClient}
      → Extends client.require_pow client.retarget h tip older
      → Represents client' h (tip ∷ older)
      → client'.require_pow ≡ client.require_pow
      → client'.retarget ≡ client.retarget
      → Added client h tip older (ok (client', true))
  refused :
      {e : SpvError}
      → (Extends client.require_pow client.retarget h tip older → ⊥)
      → Added client h tip older (err e)

module _ (client : SpvClient) (h tip : BlockHeader) (older : List BlockHeader)
    (l : tip.height + 1 < 2 ^ 64) (r : Represents client tip older) where
  abbrev next_client : SpvClient
  next_client = record client { headers = Map.insert h.height h client.headers; tip = some h }

  next_client-Represents : Follows h tip → Represents next_client h (tip ∷ older)
  unfolding at_height
  next_client-Represents f = record {
    tipped = refl;
    stored = λ n. get-insert n h.height h client.headers ∙ ground (arith, r.stored n);
    chained = (f, r.chained);
  }

  add_header-accepted :
      check_header client tip h ≡ ok tt → add_header client h ≡ ok (next_client, true)
  unfolding add_header
  add_header-accepted e = ground (arith, r.tipped, e)

  add_header-refused :
      (e : SpvError) → check_header client tip h ≡ err e → add_header client h ≡ err e
  unfolding add_header
  add_header-refused e c = ground (arith, r.tipped, c)

  -- The client accepts exactly the headers that extend its chain: the header follows the tip,
  -- meets its target where the policy asks for proof of work, and, where the policy retargets, has
  -- the work that the last headers of the chain give, or at least the floor where these are fewer
  -- than the window needs. The client then represents the chain with the header at its tip, under
  -- the same policy. The height of the tip is below the largest word.
  pub add_header-refines : Added client h tip older (add_header client h)
  add_header-refines =
      let w = window_lem client tip older r in
      elim (Result-cases (check_header client tip h)) [
        | inl (tt, c) ↦
            let x = check_header-Extends client h tip older l w c in
            rw (add_header-accepted c) (extended x (next_client-Represents x.follows) refl refl)
        | inr (e, c) ↦
            rw (add_header-refused e c)
              (refused λ x. cc (Extends-check_header client h tip older l w x, c))
      ]

pub new-Represents :
    (checkpoint : BlockHeader) (require_pow : Bool) (retarget : Option Retarget)
    → Represents (new checkpoint require_pow retarget) checkpoint []
unfolding new at_height Map.get
new-Represents checkpoint require_pow retarget = record {
  tipped = refl;
  stored = λ n. get-insert n checkpoint.height checkpoint [];
  chained = tt;
}
