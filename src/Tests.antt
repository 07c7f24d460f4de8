-- ===== src/Tests.antt =====
-- The theorems at concrete inputs: a small business, its log and two plans.
mod Data
mod Log
mod Plans
mod Checks
mod Run
mod Store
mod Solver
mod Scheduler
mod Agents
mod Service
