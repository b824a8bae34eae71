-- ===== src/Planner.antt =====
-- internal/task_workflow_layer/task_planner/planner.go: the decomposition of a request into a plan.
mod Defs
mod Chat
mod Run
pub mod Degrees
pub mod Shape
pub mod Building
pub mod Leaves
pub mod Result
pub mod Json
pub mod Empty
pub mod Pipeline
unfoldable pub use Defs.*
unfoldable pub use Chat.*
unfoldable pub use Run.*
