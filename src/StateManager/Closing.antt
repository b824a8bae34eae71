-- ===== src/StateManager/Closing.antt =====
-- internal/task_management_layer/task_state_manager/manager.go: `Dispose`, and the deadline watch when its timer fires.
use lucinda.Base.{Str, Map, lookup, delete, [], ◌∷◌, Option, none, some, if◌then◌else◌}
use lucinda.Task.{done, failed, disposed, TaskPlan, plan_timeout, Addr}
use lucinda.StateManager.Core.{Error, plan_not_found, Manager, release_node, all_done, send}

unfoldable pub dispose_node : Addr → Manager → Manager
unfolding release_node
dispose_node a m = elim (m.heap a).state [
  | done ↦ m
  | disposed ↦ m
  | failed ↦ m
  | _ ↦ record (release_node a disposed m) { claimed = delete (m.heap a).id m.claimed }
]

unfoldable pub dispose_nodes : Map Addr → Manager → Manager
unfolding dispose_node
dispose_nodes [] m = m
dispose_nodes ((k, a) ∷ rest) m = dispose_nodes rest (dispose_node a m)

unfoldable pub dispose : Str → Manager → Manager × Option Error
unfolding dispose_nodes
dispose id m = elim (lookup id m.plans) [
  | none ↦ (m, some (plan_not_found id))
  | some plan ↦ (dispose_nodes plan.nodes m, none)
]

-- `timeout_text` is the text that `Sprintf` builds from the plan's ID.
unfoldable pub fire_deadline : (Str → Str) → TaskPlan → Manager → Manager
unfolding dispose_nodes all_done send
fire_deadline timeout_text plan m =
    if all_done m.heap plan
    then m
    else send plan.notify (record { status = plan_timeout; text = timeout_text plan.id })
        (dispose_nodes plan.nodes m)
