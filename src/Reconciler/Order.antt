-- ===== src/Reconciler/Order.antt =====
-- What a run of `Reconcile` may write, and after what.
pub mod Defs
pub mod Steps
pub mod Write
pub mod Whole
