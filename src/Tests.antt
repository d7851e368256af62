-- ===== src/Tests.antt =====
-- Runs of the definitions on concrete values, and the theorems applied there.
mod Numbers
mod Domain
mod Risk
mod Outbox
mod Auth
mod Interventions
mod StepUp
mod Executor
mod Calls
mod Common
