-- ===== src/Dag/Insert/Built.antt =====
-- The stores that accepted insertions lead to from genesis.
use kovanica_node.Common.{
  ℕ, ◌≡◌, refl, sym, ap, ◌∙◌, subst, Bool, true, false, Option, List, [], Result, ok, ◌==◌,
  if◌then◌else◌, arith, length, Bool-cases, inl, inr,
}
use kovanica_node.Common.Map
use kovanica_node.Common.Map.{IsMap}
use kovanica_node.Crypto.{Crypto}
use kovanica_node.Dag.{BlockId, Block, GhostdagData, block_key, has_block, contains}
use kovanica_node.Dag.Store.{Outcome, bind-ok, Dag, Oracle, u64_top, payload_pruning_score, new_dag}
use kovanica_node.Dag.Wiring.{prune_nodes}
use kovanica_node.Dag.Insert.{
  attach, prune, prune_old_payloads, check_links, check_validator, colour_block, check_consensus,
  id_or, insert_with_id,
}
use kovanica_node.Dag.Insert.Invariant.{
  IsLinked, check_parents-stored, next-IsLinked, prune_nodes-IsLinked,
}

-- A store with no block but genesis.
genesis-IsLinked :
    {S : Type 0} (oracle : Oracle S) (k : ℕ) (genesis : Block)
    → genesis.parents ≡ []
    → IsLinked (new_dag oracle k genesis).nodes (new_dag oracle k genesis).tips
unfolding new_dag contains Map.get
genesis-IsLinked oracle k genesis root = record {
  map = (refl, tt);
  parents = λ x p h. ground (arith, h, root);
  children = λ p c. ground (arith, root);
  stored_tips = λ t h. ground (arith, h);
  childless = λ t c h. ground (arith, root);
  all_tips = λ t s h. ground (arith, s);
}

module _ {S : Type 0} (oracle : Oracle S) (crypto : Crypto)
    (vrf_verify : List ℕ → List ℕ → List ℕ → Option (List ℕ))
    (validator : Option (Block → Dag S → Result (List ℕ) (Unit {0}))) where
  abbrev insertion : Dag S → Block → Option BlockId → Outcome (Dag S × BlockId)
  insertion = insert_with_id oracle crypto vrf_verify validator

  pub data Built : Dag S → Type 0 where
    start : (k : ℕ) (genesis : Block) → genesis.parents ≡ [] → Built (new_dag oracle k genesis)
    -- The setters leave the blocks.
    configured :
        {dag next : Dag S}
        → Built dag
        → next.nodes ≡ dag.nodes
        → next.tips ≡ dag.tips
        → next.genesis ≡ dag.genesis
        → Built next
    inserted :
        {dag next : Dag S} (block : Block) (given : Option BlockId) (id : BlockId)
        → Built dag
        → dag.block_pruning_depth ≡ u64_top
        → insertion dag block given ≡ ok (next, id)
        → Built next

  -- What an accepted insertion has passed.
  pub record Accepted (dag : Dag S) (block : Block) (given : Option BlockId) (next : Dag S)
      : Type 0 where
    pub sp : BlockId
    pub data' : GhostdagData
    pub links :
        check_links oracle crypto vrf_verify validator dag block
          (id_or oracle crypto vrf_verify validator given block)
        ≡ ok tt
    pub coloured : colour_block oracle crypto vrf_verify validator dag block ≡ ok (sp, data')
    pub pruned :
        prune oracle crypto vrf_verify validator (
          attach oracle crypto vrf_verify validator dag block
            (id_or oracle crypto vrf_verify validator given block)
            sp
            data')
        ≡ ok next

  ok_first : {x y : Dag S × BlockId} → ◌≡◌ {A = Outcome (Dag S × BlockId)} (ok x) (ok y) → x ≡ y
  ok_first e = cc

  pub insertion-Accepted :
      (dag next : Dag S) (block : Block) (given : Option BlockId) (id : BlockId)
      → insertion dag block given ≡ ok (next, id)
      → Accepted dag block given next × (id ≡ id_or oracle crypto vrf_verify validator given block)
  unfolding insert_with_id
  insertion-Accepted dag next block given id e =
      let name = id_or oracle crypto vrf_verify validator given block in
      let (_, (links, e1)) =
        bind-ok (check_links oracle crypto vrf_verify validator dag block name) _ e in
      let (_, (_, e2)) =
        bind-ok (check_validator oracle crypto vrf_verify validator dag block name) _ e1 in
      let (r, (c, e3)) = bind-ok (colour_block oracle crypto vrf_verify validator dag block) _ e2 in
      let (_, (_, e4)) =
        bind-ok (check_consensus oracle crypto vrf_verify validator dag block name (r.0)) _ e3 in
      let (after, (p, e5)) =
        bind-ok
          (prune oracle crypto vrf_verify validator
            (attach oracle crypto vrf_verify validator dag block name (r.0) (r.1)))
          _ e4 in
      let same = ok_first e5 in
      let same_dag : after ≡ next = ap (λ (x : Dag S × BlockId). x.0) same in
      (
        record { sp = r.0; data' = r.1; links = links; coloured = c; pruned = p ∙ ap ok same_dag },
        sym (ap (λ (x : Dag S × BlockId). x.1) same),
      )

  pub links-stored :
      (dag : Dag S) (block : Block) (id : BlockId)
      → check_links oracle crypto vrf_verify validator dag block id ≡ ok tt
      → (has_block dag.nodes id ≡ false)
        × ((p : BlockId) → contains block.parents p ≡ true → has_block dag.nodes p ≡ true)
  unfolding check_links
  links-stored dag block id e = elim (Bool-cases (has_block dag.nodes id)) [
    | inl taken ↦ ground (arith, e, taken)
    | inr new ↦ elim (Bool-cases (length block.parents == 0)) [
      | inl empty ↦ ground (arith, e, new, empty)
      | inr some_parents ↦ (
        new,
        λ p. check_parents-stored dag.nodes block.parents p (ground (arith, e, new, some_parents)),
      )
    ]
  ]

  attach-IsLinked :
      (dag : Dag S) (block : Block) (id sp : BlockId) (g : GhostdagData)
      → IsLinked dag.nodes dag.tips
      → check_links oracle crypto vrf_verify validator dag block id ≡ ok tt
      → IsLinked
          (attach oracle crypto vrf_verify validator dag block id sp g).nodes
          (attach oracle crypto vrf_verify validator dag block id sp g).tips
  unfolding attach
  attach-IsLinked dag block id sp g l e =
      let (new, known) = links-stored dag block id e in
      next-IsLinked dag.nodes dag.tips l id _ new known refl

  abbrev Linked : Dag S → Type 0
  Linked dag = IsLinked dag.nodes dag.tips

  either_way : (P : Dag S → Type 0) (b : Bool) (x y : Dag S) → P x → P y → P (if b then x else y)
  either_way P true x y p q = p
  either_way P false x y p q = q

  prune_old_payloads_way :
      (P : Dag S → Type 0) (dag : Dag S)
      → P dag
      → P (record dag { nodes = prune_nodes (payload_pruning_score dag) dag.nodes })
      → P (prune_old_payloads oracle crypto vrf_verify validator dag)
  unfolding prune_old_payloads
  prune_old_payloads_way P dag =
      let threshold = payload_pruning_score dag in
      either_way P (threshold == 0) dag (record dag { nodes = prune_nodes threshold dag.nodes })

  ok_dag : {x y : Dag S} → ◌≡◌ {A = Outcome (Dag S)} (ok x) (ok y) → x ≡ y
  ok_dag e = cc

  -- Without block pruning, an insertion ends with the pruning of the payloads at most.
  pub prune_way :
      (P : Dag S → Type 0) (dag next : Dag S)
      → dag.block_pruning_depth ≡ u64_top
      → P dag
      → P (record dag { nodes = prune_nodes (payload_pruning_score dag) dag.nodes })
      → prune oracle crypto vrf_verify validator dag ≡ ok next
      → P next
  unfolding prune
  prune_way P dag next off p q e =
      let cheap = prune_old_payloads oracle crypto vrf_verify validator dag in
      let paid = if dag.payload_pruning_depth == u64_top then dag else cheap in
      let e' : ◌≡◌ {A = Outcome (Dag S)} (ok paid) (ok next) = ground (arith, e, off) in
      subst P (ok_dag e') (
        either_way P (dag.payload_pruning_depth == u64_top) dag cheap p
          (prune_old_payloads_way P dag p q))

  -- In every store that settings and accepted insertions without block pruning lead to from a
  -- genesis block without parents, parents are stored, the children of a block are the blocks that
  -- have it as a parent, and the tips are the stored blocks that no block has as a parent.
  pub Built-IsLinked : (dag : Dag S) → Built dag → IsLinked dag.nodes dag.tips
  Built-IsLinked _ (start k genesis root) = genesis-IsLinked oracle k genesis root
  Built-IsLinked next (configured {dag = dag} b n t g) =
      subst (λ x. IsLinked x next.tips) (sym n)
        (subst (IsLinked dag.nodes) (sym t) (Built-IsLinked dag b))
  Built-IsLinked next (inserted {dag = dag} block given id b off e) =
      let (a, _) = insertion-Accepted dag next block given id e in
      let name = id_or oracle crypto vrf_verify validator given block in
      let after = attach oracle crypto vrf_verify validator dag block name a.sp a.data' in
      let linked = attach-IsLinked dag block name a.sp a.data' (Built-IsLinked dag b) a.links in
      prune_way Linked after next (unfold attach in off) linked
        (prune_nodes-IsLinked (payload_pruning_score after) after.nodes after.tips linked) a.pruned
