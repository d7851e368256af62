-- ===== src/Domain.antt =====
-- backend/src/modules/domain: the statuses of the aggregates, and the transitions between them.
mod Statuses
mod Machines
pub mod Runs
pub use Statuses.*
unfoldable pub use Machines.{assert_transition}
pub use Machines.*
