-- ===== src/Dag/Insert/Walks.antt =====
-- The walks along the selected-parent chain, in the stores that accepted insertions lead to.
use kovanica_node.Common.{
  ℕ, suc, ◌/◌, ◌*◌, min, ◌++◌, ◌≡◌, refl, sym, ap, ◌∙◌, subst, true, false, Option, none, some,
  List, [], Result, ok, ◌==◌, arith, length, Bool-cases, Option-cases, inl, inr,
}
use kovanica_node.Common.Map
use kovanica_node.Common.Map.{IsMap, get-insert}
use kovanica_node.Crypto.{Crypto}
use kovanica_node.Dag.{
  BlockId, Block, GhostdagData, block_key, block_eq_iff, node_at, has_block, contains,
}
use kovanica_node.Dag.Mergeset.{select_parent, mergeset_ordered}
use kovanica_node.Dag.Ghostdag.{compute_ghostdag, colour}
use kovanica_node.Dag.Difficulty.{TimedWork}
use kovanica_node.Dag.Store.{
  Outcome, Dag, Oracle, u64_top, new_dag, payload_pruning_score, block_pruning_score, selected_tip,
  chain_samples, reverse_onto, lowest_at, pruning_point,
}
use kovanica_node.Dag.Wiring.{prune_nodes}
use kovanica_node.Dag.Admission.{beacon_prefix, epoch_beacon, epoch_length_of}
use kovanica_node.Dag.Insert.{attach, colour_block, id_or}
use kovanica_node.Dag.Insert.Founded.{
  Descends, ends, Descends-later, count-length, IsFounded, Kept-IsFounded, added-stored,
  added-IsFounded, prune_nodes-Kept, select_parent-contains,
}
use kovanica_node.Dag.Insert.Downward.{boundary_below-stored, lowest_at-some, newest_samples-some}
use kovanica_node.Dag.Insert.Built.{
  Built, start, configured, inserted, insertion-Accepted, links-stored, prune_way,
}

module _ {S : Type 0} (oracle : Oracle S) (crypto : Crypto)
    (vrf_verify : List ℕ → List ℕ → List ℕ → Option (List ℕ))
    (validator : Option (Block → Dag S → Result (List ℕ) (Unit {0}))) where
  record IsRooted (dag : Dag S) : Type 0 where
    founded : IsFounded dag.nodes
    genesis : has_block dag.nodes dag.genesis ≡ true

  start-IsRooted : (k : ℕ) (genesis : Block) → IsRooted (new_dag oracle k genesis)
  unfolding new_dag Map.get Map.total
  start-IsRooted k genesis = record {
    founded = record { map = (refl, tt); chains = λ x h. ends h (ground arith) };
    genesis = ground (arith, block_eq_iff genesis.id genesis.id);
  }

  ok_pair :
      {p q : BlockId} {g h : GhostdagData}
      → ◌≡◌ {A = Outcome (BlockId × GhostdagData)} (ok (p, g)) (ok (q, h))
      → (p ≡ q) × (g ≡ h)
  ok_pair e = (cc, cc)

  colour_block-parent :
      (dag : Dag S) (block : Block) (sp : BlockId) (g : GhostdagData)
      → colour_block oracle crypto vrf_verify validator dag block ≡ ok (sp, g)
      → (g.selected_parent ≡ some sp) × (contains block.parents sp ≡ true)
  unfolding colour_block compute_ghostdag colour
  colour_block-parent dag block sp g e =
      let anc = oracle.is_ancestor dag.reach in
      elim (Option-cases (select_parent dag.nodes block.parents)) [
        | inl no_parent ↦ ground (arith, e, no_parent)
        | inr (p, chosen) ↦ elim (Option-cases (mergeset_ordered dag.nodes anc p block.parents)) [
          | inl stuck ↦ ground (arith, e, chosen, stuck)
          | inr (mergeset, m) ↦
              let same : ◌≡◌ {A = Outcome (BlockId × GhostdagData)}
                  (ok (p, colour dag.k dag.nodes anc p mergeset)) (ok (sp, g)) =
                ground (arith, e, chosen, m) in
              let (same_p, same_g) = ok_pair same in
              let parent : p ≡ sp = same_p in
              (
                sym (ap (λ (x : GhostdagData). x.selected_parent) same_g) ∙ ap some parent,
                select_parent-contains dag.nodes block.parents sp (chosen ∙ ap some parent),
              )
        ]
      ]

  attach-IsRooted :
      (dag : Dag S) (block : Block) (id sp : BlockId) (g : GhostdagData)
      → IsRooted dag
      → has_block dag.nodes id ≡ false
      → has_block dag.nodes sp ≡ true
      → g.selected_parent ≡ some sp
      → IsRooted (attach oracle crypto vrf_verify validator dag block id sp g)
  unfolding attach
  attach-IsRooted dag block id sp g r new known parent =
      let f = added-IsFounded dag.nodes block.parents id sp _ r.founded new known parent in
      record {
        founded = f;
        genesis = added-stored dag.nodes block.parents id dag.genesis _ r.founded r.genesis;
      }

  pruned-IsRooted :
      (dag : Dag S) (threshold : ℕ)
      → IsRooted dag
      → IsRooted (record dag { nodes = prune_nodes threshold dag.nodes })
  pruned-IsRooted dag threshold r =
      let k = prune_nodes-Kept threshold dag.nodes r.founded.map in
      record {
        founded = Kept-IsFounded dag.nodes (prune_nodes threshold dag.nodes) k r.founded;
        genesis = k.stored dag.genesis ∙ r.genesis;
      }

  Built-IsRooted : (dag : Dag S) → Built oracle crypto vrf_verify validator dag → IsRooted dag
  Built-IsRooted _ (start k genesis root) = start-IsRooted k genesis
  Built-IsRooted next (configured {dag = dag} b n t g) =
      let r = Built-IsRooted dag b in
      record {
        founded = subst IsFounded (sym n) r.founded;
        genesis = (λ i. has_block (n i) (g i)) ∙ r.genesis;
      }
  Built-IsRooted next (inserted {dag = dag} block given id b off e) =
      let (a, _) =
        insertion-Accepted oracle crypto vrf_verify validator dag next block given id e in
      let name = id_or oracle crypto vrf_verify validator given block in
      let (new, known) = links-stored oracle crypto vrf_verify validator dag block name a.links in
      let (parent, among) = colour_block-parent dag block a.sp a.data' a.coloured in
      let after = attach oracle crypto vrf_verify validator dag block name a.sp a.data' in
      let rooted =
        attach-IsRooted dag block name a.sp a.data' (Built-IsRooted dag b) new (known a.sp among)
          parent in
      prune_way oracle crypto vrf_verify validator IsRooted after next (unfold attach in off) rooted
        (pruned-IsRooted after (payload_pruning_score after) rooted) a.pruned

  fueled :
      (dag : Dag S) (x : BlockId)
      → IsRooted dag
      → has_block dag.nodes x ≡ true
      → Descends dag.nodes (suc (length dag.nodes)) x
  fueled dag x r h =
      Descends-later dag.nodes (length dag.nodes) x
        (subst (λ n. Descends dag.nodes n x) (sym (count-length dag.nodes)) (r.founded.chains x h))

  chain_samples-some :
      (dag : Dag S) (sp : BlockId) (window : ℕ)
      → Descends dag.nodes (suc (length dag.nodes)) sp
      → (samples : List TimedWork) × (chain_samples dag sp window ≡ some samples)
  unfolding chain_samples
  chain_samples-some dag sp window d =
      let (samples, e) = newest_samples-some dag.nodes (suc window) _ sp d in
      (reverse_onto [] samples, ground (arith, e))

  epoch_beacon-ok :
      (dag : Dag S) (sp : BlockId)
      → has_block dag.nodes dag.genesis ≡ true
      → Descends dag.nodes (suc (length dag.nodes)) sp
      → (beacon : List ℕ) × (epoch_beacon crypto vrf_verify dag sp ≡ ok beacon)
  unfolding epoch_beacon
  epoch_beacon-ok dag sp g d =
      let epoch_length = epoch_length_of dag.vrf_config in
      let epoch = (node_at dag.nodes sp).ghostdag.blue_score / epoch_length in
      let (b, (e, stored)) =
        boundary_below-stored dag.nodes (min (epoch * epoch_length) u64_top) _ dag.genesis sp g d in
      elim (Option-cases (Map.get b dag.nodes)) [
        | inl gone ↦ ground (arith, stored, gone)
        | inr (node, here) ↦ (
          crypto.blake3 (elim node.block.vrf_output [
            | none ↦ beacon_prefix ++ b.bytes
            | some output ↦ (beacon_prefix ++ b.bytes) ++ output
          ]),
          ground (arith, e, here),
        )
      ]

  pruning_point-some :
      (dag : Dag S) → IsRooted dag → (point : BlockId) × (pruning_point dag ≡ some point)
  unfolding pruning_point lowest_at
  pruning_point-some dag r = elim (Bool-cases (block_pruning_score dag == 0)) [
    | inl off ↦ (dag.genesis, ground (arith, off))
    | inr on ↦ elim (Option-cases (Map.get (selected_tip dag) dag.nodes)) [
      | inl gone ↦ (dag.genesis, ground (arith, on, gone))
      | inr (node, here) ↦
          let (b, e) =
            lowest_at-some dag.nodes (block_pruning_score dag) _ dag.genesis (selected_tip dag)
              (fueled dag (selected_tip dag) r (ground (arith, here))) in
          (b, ground (arith, on, e))
    ]
  ]

  -- In every store that settings and accepted insertions without block pruning lead to from a
  -- genesis block without parents, the walks down the chains find what they look for, without a
  -- panic and within their fuel: for every stored block the samples of each window and the beacon
  -- of its epoch, and for the store its pruning point.
  pub Built_walks :
      (dag : Dag S) (sp : BlockId)
      → Built oracle crypto vrf_verify validator dag
      → has_block dag.nodes sp ≡ true
      → ((window : ℕ) → (samples : List TimedWork) × (chain_samples dag sp window ≡ some samples))
        × ((beacon : List ℕ) × (epoch_beacon crypto vrf_verify dag sp ≡ ok beacon))
        × ((point : BlockId) × (pruning_point dag ≡ some point))
  Built_walks dag sp b h =
      let r = Built-IsRooted dag b in
      let d = fueled dag sp r h in
      (
        λ window. chain_samples-some dag sp window d,
        epoch_beacon-ok dag sp r.genesis d,
        pruning_point-some dag r,
      )
