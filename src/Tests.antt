-- ===== src/Tests.antt =====
-- Runs at concrete inputs, and the instances of the theorems that have hypotheses.
mod Samples
mod TxTests
mod DagTests
mod VrfTests
mod SpvTests
mod NodeTests
mod ReachabilityTests
mod UtxoTests
mod ScriptTests
mod StakeTests
mod LedgerTests
