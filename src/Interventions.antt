-- ===== src/Interventions.antt =====
-- backend/src/modules/interventions: how an intervention is acknowledged, cancelled, held and
-- released.
pub mod Holds
pub mod Rows
pub mod Service
pub mod Progress
pub mod Replays
pub mod Verified
pub mod StepUp
pub mod Challenges
pub mod Completions
pub mod Executor
pub mod Executions
