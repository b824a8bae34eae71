-- ===== src/StateManager/Core.antt =====
-- internal/task_management_layer/task_state_manager/manager.go: the struct.
-- `Manager` is the struct together with the heap of nodes that its maps point into and what its
-- methods do to the outside: the events published, the results sent on `Notify` channels, and the
-- goroutines started that have not run yet. A method returns the new state and its error, `none`
-- for `nil`. The lock makes each method, and each goroutine's body, one step. `now` is the clock.
use lucinda.Base.{
  Str, Map, ℤ, pos, List, [], ◌∷◌, ◌++◌, Option, none, some, Bool, true, false, ◌&&◌, if◌then◌else◌,
  ◌==◌,
}
use lucinda.Task.{NodeState, done, TaskNode, TaskPlan, PlanResult, Addr, Chan, Heap}
use lucinda.Messages.{EventType}

-- The goroutines: the lease watchdog of `Claim`, with the time of its timer in seconds, and the
-- deadline watch of `Ingest`, whose closure holds the plan, in nanoseconds.
pub data Goroutine : Type 0 where
  lease_watch : Str → ℤ → Goroutine
  deadline_watch : TaskPlan → ℤ → Goroutine

pub data Error : Type 0 where
  plan_exists plan_not_found no_such_node : Str → Error
  already_claimed : Str → Str → Error
  wrong_state : Str → NodeState → Error

pub record Manager : Type 0 where
  pub heap : Heap
  pub plans : Map TaskPlan
  pub nodes : Map Addr
  pub claimed : Map Str
  pub published : List (EventType × Addr)
  pub sent : List (Chan × PlanResult)
  pub spawned : List Goroutine

abbrev pub state_of : Manager → Addr → NodeState
state_of m a = (m.heap a).state

-- A write through a pointer.
unfoldable pub write : Addr → TaskNode → Heap → Heap
write a n h b = if a == b then n else h b

unfoldable pub set_state : Addr → NodeState → Manager → Manager
unfolding write
set_state a s m = record m { heap = write a (record (m.heap a) { state = s }) m.heap }

-- Sets the state, and clears the lease that the node carries.
unfoldable pub release_node : Addr → NodeState → Manager → Manager
unfolding write
release_node a s m = record m {
  heap = write a (record (m.heap a) { state = s; claimed_by = []; expires_at = pos 0 }) m.heap;
}

unfoldable pub publish : EventType → Addr → Manager → Manager
publish t a m = record m { published = m.published ++ (t, a) ∷ [] }

unfoldable pub new_task_state_manager : Heap → Manager
new_task_state_manager h = record {
  heap = h;
  plans = [];
  nodes = [];
  claimed = [];
  published = [];
  sent = [];
  spawned = [];
}

abbrev pub is_done : NodeState → Bool
is_done done = true
is_done _ = false

-- `allDone`: the loop over `plan.Nodes`.
unfoldable pub all_nodes_done : Heap → Map Addr → Bool
all_nodes_done h [] = true
all_nodes_done h ((k, a) ∷ rest) = is_done (h a).state && all_nodes_done h rest

unfoldable pub all_done : Heap → TaskPlan → Bool
unfolding all_nodes_done
all_done h plan = all_nodes_done h plan.nodes

unfoldable pub send : Option Chan → PlanResult → Manager → Manager
send none r m = m
send (some c) r m = record m { sent = m.sent ++ (c, r) ∷ [] }
