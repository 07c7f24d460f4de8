-- ===== src/Scheduler/Travel.antt =====
-- The providers of drives (src/krama/scheduler/travel).
pub mod Buckets
pub mod Cache
