-- ===== src/Model.antt =====
-- The entities of the dispatch domain (src/krama/domain/enums.py and models.py).
pub mod Enums
pub mod Units
pub mod Entities
pub mod Jobs
pub mod Plan
pub mod Crews
