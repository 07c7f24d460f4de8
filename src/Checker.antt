-- ===== src/Checker.antt =====
-- The invariant checker of src/krama/domain/invariants.py: the guard that no plan is committed
-- without. Each check is a module: the code, and what an empty answer means.
pub mod Report
pub mod References
pub mod Duplicates
pub mod Fitness
pub mod Exclusivity
pub mod Outages
pub mod Travel
pub mod Windows
pub mod Hours
pub mod Capacity
pub mod Materials
pub mod Validate
pub mod Baseline
