-- ===== src/StateManager.antt =====
-- internal/task_management_layer/task_state_manager/manager.go: the state machine of the sub-tasks.
-- The definitions stand in Core, Ingest, Lifecycle, Complete, Closing and Queries.
mod Core
mod Ingest
mod Lifecycle
mod Complete
mod Closing
mod Queries
pub mod Graph
pub mod Cascade
pub mod Schedule
pub mod Progress
pub mod Calls
pub mod Keeping
pub mod Start
pub mod Frames
pub mod Footprint
pub mod Books
pub mod Completing
pub mod Traces
pub mod Weights
pub mod Finishing
pub mod Leases
pub mod Holding
pub mod Deadlock
pub mod Endings
pub mod Completion
pub mod Reports
pub mod Reporting
pub mod OneResult
pub mod TimedOut
unfoldable pub use Core.*
unfoldable pub use Ingest.*
unfoldable pub use Lifecycle.*
unfoldable pub use Complete.*
unfoldable pub use Closing.*
unfoldable pub use Queries.*
