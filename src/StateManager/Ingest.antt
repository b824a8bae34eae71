-- ===== src/StateManager/Ingest.antt =====
-- internal/task_management_layer/task_state_manager/manager.go: `Ingest` and `startDeadlineWatch`.
use lucinda.Base.{
  Str, Map, lookup, insert, ℤ, pos, add64, leb_ℤ, List, [], ◌∷◌, Option, none, some, if◌then◌else◌,
}
use lucinda.Task.{pending, ready, TaskPlan, Addr}
use lucinda.Messages.{task_ready}
use lucinda.StateManager.Core.{deadline_watch, Error, plan_exists, Manager, set_state, publish}

-- The loop that registers the nodes of the plan, under the IDs that they carry.
unfoldable pub register_nodes : Map Addr → Manager → Manager
unfolding set_state
register_nodes [] m = m
register_nodes ((k, a) ∷ rest) m =
    register_nodes rest (set_state a pending (record m { nodes = insert (m.heap a).id a m.nodes }))

-- The loop over the roots; the nodes that it collects come second.
unfoldable pub ready_roots : TaskPlan → List Str → Manager → Manager × List Addr
unfolding set_state
ready_roots plan [] m = (m, [])
ready_roots plan (r ∷ rs) m =
    let a? = lookup r plan.nodes in
    let m' : Manager = elim a? [ none ↦ m | some a ↦ set_state a ready m ] in
    let (m'', roots) = ready_roots plan rs m' in
    (m'', elim a? [ none ↦ roots | some a ↦ a ∷ roots ])

unfoldable pub publish_roots : List Addr → Manager → Manager
unfolding publish
publish_roots [] m = m
publish_roots (a ∷ rest) m = publish_roots rest (publish task_ready a m)

-- The timer runs for `time.Until(plan.Deadline)`, or one nanosecond where that is not positive.
unfoldable pub start_deadline_watch : TaskPlan → ℤ → Manager → Manager
start_deadline_watch plan now m = elim plan.deadline [
  | none ↦ m
  | some d ↦ elim plan.notify [
    | none ↦ m
    | some c ↦ record m {
      spawned = deadline_watch plan (if leb_ℤ d now then add64 now (pos 1) else d) ∷ m.spawned;
    }
  ]
]

unfoldable pub ingest : TaskPlan → ℤ → Manager → Manager × Option Error
unfolding register_nodes ready_roots publish_roots start_deadline_watch
ingest plan now m = elim (lookup plan.id m.plans) [
  | some p ↦ (m, some (plan_exists plan.id))
  | none ↦
      let m₁ = register_nodes plan.nodes (record m { plans = insert plan.id plan m.plans }) in
      let (m₂, roots) = ready_roots plan plan.roots m₁ in
      (publish_roots roots (start_deadline_watch plan now m₂), none)
]
