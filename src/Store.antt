-- ===== src/Store.antt =====
-- The event log and the plan store on files (src/krama/persistence/log.py).
pub mod Files
pub mod EventLog
pub mod PlanStore
pub mod Commits
pub mod Ancestry
