-- ===== src/Scheduler.antt =====
-- The scheduler (src/krama/scheduler), less the search of the constraint solver.
pub mod Params
pub mod Travel
pub mod Day
pub mod Routing
pub mod Horizon
pub mod Repair
