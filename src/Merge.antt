-- ===== src/Merge.antt =====
-- internal/portablemerge/merge.go
pub mod Document
pub mod Structured
pub mod Keys
pub mod Paths
pub mod Fuel
pub mod Clashes
