-- ===== src/Tests/NodeTests.antt =====
-- Tests of the pool of transactions and the limits of peers, and the theorems about them at concrete
-- inputs.
use kovanica_node.Common.{
  ◌≡◌, refl, true, false, some, [], ◌∷◌, err, bytes_eq, to_le_bytes, ◌≤◌, arith,
}
use kovanica_node.Common.Map
use kovanica_node.Dag.{BlockId}
use kovanica_node.Mempool.{
  MempoolV2, default_config, capacity_exceeded, missing, fee_rate_with_utxo, fee_with_utxo,
  input_sum, output_sum, add_bytes, sub_bytes, tx_id_eq,
}
use kovanica_node.Mempool.Evict.{
  ensure_capacity, limit_count, limit_bytes, evict_count, evict_bytes, evict_lowest_fee_rate,
  fail_if_empty, lowest, remove_pending, remove_orphan,
}
use kovanica_node.Ledger
use kovanica_node.Utxo
use kovanica_node.Tx.{is_coinbase, outpoint_eq}
use kovanica_node.Tx.Encode
use kovanica_node.Mempool
use kovanica_node.Mempool.Pool.{add, add_new, add_priced}
use kovanica_node.Mempool.Keeps.{IsPool}
use kovanica_node.Mempool.Reach.{Reachable-IsPool, start, adds}
use kovanica_node.Mempool.Answers.{Answers, add-Answers}
use kovanica_node.Hardening.{Peer, default_hardening, new_score, reset}
use kovanica_node.Hardening.Peers.{P2pHardening, score_of, ban_for, is_banned, on_block}
use kovanica_node.Hardening.Peers
use kovanica_node.Hardening.Bans.{ticks, ban_for-ticks}
use kovanica_node.Hardening.Limiter.{served, served_bounds}
use kovanica_node.Hardening.Scores
use kovanica_node.Hardening.Scores.{IsSound, IsScored, Reachable-IsScored}
use kovanica_node.Tests.Samples.{txid, transfer, utxos, toy}

Reachable-IsPool_example : IsPool toy ((add toy transfer utxos (Mempool.new default_config)).0)
Reachable-IsPool_example =
    Reachable-IsPool toy default_config ((add toy transfer utxos (Mempool.new default_config)).0)
      (adds transfer utxos start)

add-Answers_example :
    Answers
      (Mempool.new default_config).config
      (add toy transfer utxos (Mempool.new default_config))
add-Answers_example = add-Answers toy transfer utxos (Mempool.new default_config)

abbrev small : MempoolV2
small = record (Mempool.new (record default_config { max_bytes = some 10 })) {
  pending = (txid 9, record { tx = transfer; size = 5; fee_rate = 3 }) ∷ [];
  total_bytes = 5;
}

-- A transaction that can never fit evicts every other one before it is refused.
oversized_empties :
    ((add toy transfer utxos small).0.pending ≡ [])
    × ((add toy transfer utxos small).1 ≡ err capacity_exceeded)
unfolding add add_new add_priced ensure_capacity limit_count limit_bytes evict_count evict_bytes
    evict_lowest_fee_rate fail_if_empty lowest remove_pending remove_orphan Mempool.new Map.get
    Map.remove missing fee_rate_with_utxo fee_with_utxo input_sum output_sum add_bytes sub_bytes
    tx_id_eq is_coinbase Ledger.id Utxo.get Utxo.get_entry outpoint_eq bytes_eq Encode.encode
    Encode.encode_into to_le_bytes Encode.encode_input Encode.encode_witness
    Encode.encode_witness_item Encode.encode_output Encode.encode_asset_id Encode.encode_stealth
oversized_empties = (refl, refl)

abbrev alice : Peer
alice = record { bytes = b'a' ∷ [] }

ban_for-ticks_example :
    is_banned alice (ticks 3 (ban_for alice 5 (Peers.new default_hardening))) ≡ true
unfolding score_of Peers.new new_score Map.get
ban_for-ticks_example =
    ban_for-ticks alice 5 3 (Peers.new default_hardening) refl (omega arith) (omega arith)

served_bounds_example :
    ((served default_hardening ((12, 600000) ∷ (13, 600000) ∷ []) (reset 10)).0 ≤ 1000000)
    × ((served default_hardening ((12, 600000) ∷ (13, 600000) ∷ []) (reset 10)).1 ≤ 1000)
served_bounds_example =
    served_bounds default_hardening 10 (omega arith) (omega arith) (omega arith) (omega arith)
      ((12, 600000) ∷ (13, 600000) ∷ []) (omega arith)

default_sound : IsSound default_hardening
default_sound = record { above = omega arith; below = omega arith }

abbrev some_block : BlockId
some_block = record { bytes = 1 ∷ [] }

Reachable-IsScored_example :
    IsScored default_hardening default_sound
      ((on_block alice some_block false (Peers.new default_hardening)).0)
Reachable-IsScored_example =
    Reachable-IsScored default_hardening default_sound
      ((on_block alice some_block false (Peers.new default_hardening)).0)
      (Scores.blocks alice some_block false Scores.start)
