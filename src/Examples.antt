-- ===== src/Examples.antt =====
-- Runs at concrete data, and the theorems there.
mod Sync
mod Install
mod Resource
mod Planning
mod Scheduler
mod Conflict
mod Merge
mod Engine
mod Screening
