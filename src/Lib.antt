-- ===== src/Lib.antt =====
-- The KovanicaDAG node: a block DAG with GHOSTDAG consensus, a ledger of unspent outputs over it,
-- and the node around them. This library models the transaction and block
-- rules of the Rust crates and proves what makes them correct.
--
-- The parts, with the code that each models (paths from the repository's root):
-- - Codec, Tx: crates/kovanica-state/src/tx.rs: the transaction types (Tx), `encode_into`
--   (Tx.Encode), `Reader::read_transaction`, `Transaction::decode` and `decode_block_payload`
--   (Tx.Decode); the cursor of `Reader` and of the checkpoint reader is Codec. The loops take the
--   declared count as their bound, so they need no fuel.
-- - Validation: crates/kovanica-state/src/validation.rs: `validate_tx_structure` and
--   `validate_block_payload`.
-- - Utxo: crates/kovanica-state/src/utxo.rs: `UtxoSet` and its checkpoint codec.
-- - Delta: crates/kovanica-state/src/ledger.rs: `BlockDelta`, `diff_utxo`, `apply_delta`,
--   `compose_delta`. It uses the map of Utxo.
-- - Crypto, Templates: crates/kovanica-state/src/keys.rs (`verify`, `verify_pk`), vault.rs,
--   htlc.rs and multisig.rs of the same folder. BLAKE3 and Ed25519 are the fields of the parameter
--   `Crypto`.
-- - Script: crates/kovanica-state/src/script_v2.rs: `ScriptV2::new` (Script.Parse) and
--   `ScriptV2::execute` (Script.Execute).
-- - Stake: crates/kovanica-state/src/stake.rs: the bond tags (Stake.Tags), `StakeState` with its
--   operations and `eligibility_threshold` (Stake.State). A u64 addition that the source leaves
--   unchecked wraps, as in a release build.
-- - Ledger: crates/kovanica-state/src/ledger.rs: `apply_regular` (Ledger.Authorise: the witness of
--   an input, Ledger.Inputs: the checks, Ledger.Assets: conservation, Ledger.Apply: the effects),
--   `apply_coinbase` and `add_outputs` (Ledger.Apply), `apply_block_inner` with `apply_block` and
--   `apply_block_with_stake` (Ledger.Block), `HalvingSchedule` (Ledger.Emission). An error leaves
--   the staged set unused; the registry is changed in place, so it is part of the result.
--   Ledger.Passed, Effect and Regular are about a transaction, Ledger.Runs and Refused about a
--   refused block. A panic is the error `panicked`. The loops follow the lists, and the emission
--   loop its number of eras.
-- - Dag: crates/kovanica-dag/src: `Block` and its identity (Dag.Identity, block.rs),
--   `mergeset_ordered` (Dag.Mergeset, dag.rs), `compute_ghostdag` (Dag.Ghostdag, ghostdag.rs), the
--   store with its settings and chain walks (Dag.Store), `insert_with_id` (Dag.Insert) with its
--   loops (Dag.Wiring) and its checks of difficulty and VRF (Dag.Admission, dag.rs), `linearize`
--   (Dag.Order, ordering.rs), `meets_target` and `mine_from` (Dag.Pow, pow.rs),
--   `Retarget::next_work` (Dag.Difficulty, difficulty.rs), the reachability oracle
--   (Dag.Reachability, reachability.rs, which fills the interface Dag.Store.Oracle;
--   Dag.Reachability.Leaf is about its interval tree), `vrf_prove` and `vrf_verify` (Dag.Vrf,
--   vrf.rs; the insertion takes the verification on encoded proofs as a parameter). Dag.Merged,
--   Walk, TopoSort and Past are about the mergeset, Dag.Cluster, Colouring, BlueSet and
--   SelectedParent about the blue set, Dag.Insert.Links, Invariant and Built about the links of
--   the store, Dag.Insert.Founded, Downward and Walks about its chains. A `HashMap` that the
--   colouring reads is walked in the order of its entries.
-- - Mempool: crates/kovanica-node/src/mempool_v2.rs: the pool and its errors (Mempool), the
--   removals and the loops that make room (Mempool.Evict), `add`, `replace_by_fee`,
--   `revalidate_with_utxo`, `on_new_block`, `remove_all` and `fee_estimate` (Mempool.Pool).
--   Mempool.Removals, Keeps, Room, Invariant and Reach are about the invariant, Mempool.Limits and
--   Answers about what an admission leaves. It prices transactions by the set of Utxo and names
--   them by `Ledger.id`.
-- - Hardening: crates/kovanica-node/src/p2p_hardening.rs: the states of a peer (Hardening) and the
--   operations over all peers (Hardening.Peers). A score is an integer that wraps at 32 bits
--   before it is clamped. Hardening.Bans, Limiter and Scores hold the proofs.
-- - Spv: crates/kovanica-state/src/spv.rs: the Merkle root, its proofs and their check
--   (Spv.Merkle), `BlockHeader` and `SpvClient` (Spv.Headers). Spv.Headers.Chain is the chain that
--   the client represents, Spv.Headers.Refinement that it does; Spv.Merkle.Inclusion, Binding and
--   Repeat are about the tree.
--
-- Conventions. A word of w bits is a native number, and each wrap, saturation or overflow check is
-- written where the source has it. A byte array or a `Vec<u8>` is a list of numbers; the lengths
-- and ranges that the Rust types fix are hypotheses (Tx.WellFormed, Utxo.RoundTrip.IsEntry). A
-- `HashMap` is the list of its entries with one entry for each key (Common.Map.IsMap); a theorem
-- about a map speaks of look-ups, since the order of the entries is unspecified. A reader's
-- position is the list of the bytes that are left. Errors are values of a result type, in the order
-- in which the code finds them. Code outside the repository (BLAKE3, SHA-512, Ed25519, the ristretto
-- group) is a parameter.
--
-- Fuel. The two loops of the scripts run on fuel, the length of the script, which is enough: each
-- step consumes an opcode. The walk of a mergeset runs on the number of entries that its queue can
-- ever have, the parents of the new block and of every stored block. The search for a nonce runs on
-- the number of nonces that are left. The walks along the selected-parent chain run on the number
-- of stored blocks, and the error `out_of_fuel` tells a longer walk apart; Dag.Insert.Walks is about
-- it, except for the walks of `linearize` and of the removal of old blocks.
--
-- The loops of the mempool that make room run on the number of entries and one, and the levels of a
-- Merkle tree on the number of leaves.
--
-- The walks of the reachability oracle run on the number of blocks with a size, which bounds the depth
-- of its tree; that it is enough is not shown.
--
-- Not modelled: the incremental ledger (undo log, pruning, snapshots, hybrid admission), the address
-- filter of the light proofs and the swaps; and the network, the HTTP explorer, the command line,
-- persistence to disk, the FFI bindings and the wallet, which are input and output around these
-- parts. The theorems about the colouring take the answers of the oracle as a parameter.
pub mod Common
pub mod Codec
pub mod Tx
pub mod Validation
pub mod Utxo
pub mod Delta
pub mod Crypto
pub mod Templates
pub mod Script
pub mod Stake
pub mod Ledger
pub mod Dag
pub mod Mempool
pub mod Hardening
pub mod Spv
pub mod Tests
