-- ===== src/Agents.antt =====
-- The agents (src/krama/agents): asking a model for an object of a schema, what the coordinator
-- makes of the answer, and the events that a note becomes.
pub mod Structured
pub mod Coordinator
pub mod Events
pub mod Triage
