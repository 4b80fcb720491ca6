-- ===== src/Reconciler/Protocol.antt =====
-- The order in which a run of `Reconcile` writes, as a protocol of stages.
pub mod Defs
pub mod Moves
pub mod Run
