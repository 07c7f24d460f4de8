-- ===== src/Scheduler/Repair.antt =====
-- The repair of a committed plan (src/krama/scheduler/repair.py).
pub mod Locked
pub mod Options
