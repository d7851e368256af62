-- ===== src/Calls.antt =====
-- backend/src/modules/calls, analysis and media: calls, their participants, the tracks that are bound
-- and the analysis sessions on them.
pub mod Rows
pub mod Repository
pub mod Changes
pub mod Tracks
pub mod Closing
pub mod Outside
pub mod Service
pub mod Analysis
pub mod Lifecycle
pub mod Exclusive
pub mod OneAnalysis
pub mod Requests
pub mod Kept
pub mod History
pub mod Binding
