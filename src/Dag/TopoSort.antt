-- ===== src/Dag/TopoSort.antt =====
-- The order of `(past_size, id)` and the sort by it.
use kovanica_node.Common.{
  ◌≡◌, refl, true, false, List, [], ◌∷◌, if◌then◌else◌, arith, All, bytes_lt-asym, bytes_lt-cotrans,
}
use kovanica_node.Dag.{BlockId, Nodes, block_lt, block_key}
use kovanica_node.Dag.Mergeset.{insert_by_topo_key, sort_by_topo_key, topo_key_lt}
use kovanica_node.Dag.Cluster.{times}

module _ (nodes : Nodes) where
  insert_by_topo_key-times :
      (b x : BlockId) (xs : List BlockId)
      → times b (insert_by_topo_key nodes x xs) ≡ times b (x ∷ xs)
  unfolding insert_by_topo_key times
  insert_by_topo_key-times b x [] = refl
  insert_by_topo_key-times b x (y ∷ xs) = ground (arith, insert_by_topo_key-times b x xs)

  pub sort_by_topo_key-times :
      (b : BlockId) (xs : List BlockId) → times b (sort_by_topo_key nodes xs) ≡ times b xs
  unfolding sort_by_topo_key times
  sort_by_topo_key-times b [] = refl
  sort_by_topo_key-times b (x ∷ xs) =
      ground (
        arith,
        sort_by_topo_key-times b xs,
        insert_by_topo_key-times b x (sort_by_topo_key nodes xs),
      )

  topo_key_lt-asym : (a b : BlockId) → topo_key_lt nodes a b ≡ true → topo_key_lt nodes b a ≡ false
  unfolding topo_key_lt block_lt
  topo_key_lt-asym a b h = ground (arith, h, bytes_lt-asym a.bytes b.bytes)

  topo_key_lt-cotrans :
      (a b c : BlockId)
      → topo_key_lt nodes c b ≡ false
      → topo_key_lt nodes b a ≡ false
      → topo_key_lt nodes c a ≡ false
  unfolding topo_key_lt block_lt
  topo_key_lt-cotrans a b c h g = ground (arith, h, g, bytes_lt-cotrans a.bytes b.bytes c.bytes)

  -- No block of the list precedes one before it.
  unfoldable pub IsTopoSorted : List BlockId → Type 0
  IsTopoSorted [] = Unit
  IsTopoSorted (x ∷ xs) = All (λ y. topo_key_lt nodes y x ≡ false) xs × IsTopoSorted xs

  All-insert :
      (P : BlockId → Type 0) (x : BlockId) (xs : List BlockId)
      → P x
      → All P xs
      → All P (insert_by_topo_key nodes x xs)
  unfolding insert_by_topo_key
  All-insert P x [] p ps = (p, tt)
  All-insert P x (y ∷ xs) p (q, ps) =
      elim (topo_key_lt nodes y x)
        as (λ b. All P (if b then y ∷ insert_by_topo_key nodes x xs else x ∷ y ∷ xs)) [
          | true ↦ (q, All-insert P x xs p ps)
          | false ↦ (p, (q, ps))
        ]

  All-cotrans :
      (x y : BlockId) (xs : List BlockId)
      → topo_key_lt nodes y x ≡ false
      → All (λ z. topo_key_lt nodes z y ≡ false) xs
      → All (λ z. topo_key_lt nodes z x ≡ false) xs
  All-cotrans x y [] h ps = tt
  All-cotrans x y (z ∷ xs) h (p, ps) = (topo_key_lt-cotrans x y z p h, All-cotrans x y xs h ps)

  insert-IsTopoSorted :
      (x : BlockId) (xs : List BlockId)
      → IsTopoSorted xs
      → IsTopoSorted (insert_by_topo_key nodes x xs)
  unfolding IsTopoSorted insert_by_topo_key
  insert-IsTopoSorted x [] s = (tt, tt)
  insert-IsTopoSorted x (y ∷ xs) (ps, s) =
      (elim (topo_key_lt nodes y x)
          as (λ b.
            topo_key_lt nodes y x ≡ b
            → IsTopoSorted (if b then y ∷ insert_by_topo_key nodes x xs else x ∷ y ∷ xs)) [
              | true ↦ λ e. (
                All-insert (λ z. topo_key_lt nodes z y ≡ false) x xs (topo_key_lt-asym y x e) ps,
                insert-IsTopoSorted x xs s,
              )
              | false ↦ λ e. ((e, All-cotrans x y xs e ps), (ps, s))
            ])
        refl

  pub sort-IsTopoSorted : (xs : List BlockId) → IsTopoSorted (sort_by_topo_key nodes xs)
  unfolding IsTopoSorted sort_by_topo_key
  sort-IsTopoSorted [] = tt
  sort-IsTopoSorted (x ∷ xs) =
      insert-IsTopoSorted x (sort_by_topo_key nodes xs) (sort-IsTopoSorted xs)
