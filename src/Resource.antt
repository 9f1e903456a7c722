-- ===== src/Resource.antt =====
-- internal/resource: what may be synchronized, and where it lies in the repository.
pub mod Model
pub mod Spec
pub mod Identifier
pub mod Namespace
