-- ===== src/Sync.antt =====
-- internal/syncengine: the decisions of a synchronization pass.
pub mod Reconcile
pub mod FirstSync
pub mod Planning
