-- ===== src/Conflict.antt =====
-- internal/conflict: unresolved conflicts and the batches that resolve them.
pub mod Model
pub mod Effect
pub mod Transaction
pub mod Queue
pub mod Bundles
