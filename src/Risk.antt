-- ===== src/Risk.antt =====
-- backend/src/modules/risk: evidence, the engine that turns it into a state and proposed
-- interventions, the policy document that the engine obeys, and the gate to production.
pub mod Types
pub mod Evidence
pub mod Select
pub mod Window
pub mod Engine
pub mod Debounce
pub mod Escalation
pub mod Newest
pub mod Decisions
pub mod Readings
pub mod Gates
pub mod Cells
pub mod Sticky
pub mod Silence
pub mod Gate
pub mod Json
pub mod Policy
pub mod Accepted
