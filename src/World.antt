-- ===== src/World.antt =====
-- The world state (src/krama/domain/state.py): what the log says, at one moment.
pub mod Outages
pub mod State
pub mod Apply
pub mod Fold
pub mod Queries
pub mod Invariant
pub mod Jobs
pub mod Offers
pub mod Shifts
pub mod Availability
