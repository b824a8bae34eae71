-- ===== src/Board.antt =====
-- internal/task_workflow_layer/task_board/board.go: advertisements, bids and awards.
mod Defs
mod Handlers
pub mod Ranking
pub mod Award
pub mod Protocol
pub mod Privacy
pub mod Network
unfoldable pub use Defs.*
unfoldable pub use Handlers.*
