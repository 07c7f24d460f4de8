-- ===== src/Scheduler/Day.antt =====
-- The parts of src/krama/scheduler/day_planner.py and src/krama/scheduler/horizon.py that decide what
-- a day's solve is given.
pub mod Free
