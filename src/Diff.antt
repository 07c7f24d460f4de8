-- ===== src/Diff.antt =====
-- What changed between two plans, and who would notice (src/krama/domain/diff.py). The text that
-- the dispatcher reads (`describe`, `summary`) is left out.
pub mod Changes
pub mod Plans
pub mod Soundness
