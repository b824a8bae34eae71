-- ===== src/StateManager/Complete.antt =====
-- internal/task_management_layer/task_state_manager/manager.go: `Complete` and the cascade to the successors.
use lucinda.Base.{
  Str, Map, lookup, lookup_or, insert, delete, ℤ, pos, sub64, leb_ℤ, List, [], ◌∷◌, Option, none,
  some, if◌then◌else◌, is_some,
}
use lucinda.Task.{ready, running, done, TaskPlan, plan_ok, Addr}
use lucinda.Messages.{task_ready}
use lucinda.StateManager.Core.{
  Error, no_such_node, wrong_state, Manager, set_state, publish, all_done, send,
}

-- One round of the loop over the successors: the state, and the plan's predecessor counts.
unfoldable pub visit_successor : Map Addr → Str → Manager × Map ℤ → Manager × Map ℤ
unfolding set_state publish
visit_successor plan_nodes succ (m, nums) = elim (lookup succ plan_nodes) [
  | none ↦ (m, nums)
  | some a ↦
      let n = sub64 (lookup_or (pos 0) succ nums) (pos 1) in
      (
        if leb_ℤ n (pos 0) then publish task_ready a (set_state a ready m) else m,
        insert succ n nums,
      )
]

unfoldable pub cascade : Map Addr → List Str → Manager × Map ℤ → Manager × Map ℤ
unfolding visit_successor
cascade plan_nodes [] s = s
cascade plan_nodes (succ ∷ rest) s = cascade plan_nodes rest (visit_successor plan_nodes succ s)

-- The first plan of the loop that has the node, under its key.
unfoldable pub owning_plan : Str → Map TaskPlan → Option (Str × TaskPlan)
owning_plan id [] = none
owning_plan id ((k, plan) ∷ rest) =
    if is_some (lookup id plan.nodes) then some (k, plan) else owning_plan id rest

-- The body of the loop for the plan that has the node.
unfoldable pub finish_in_plan : Str → TaskPlan → Str → Str → Manager → Manager
unfolding cascade all_done send
finish_in_plan key plan id output m =
    let (m', nums) =
      cascade plan.nodes (lookup_or [] id plan.successors) (m, plan.predecessor_nums) in
    let m'' = record m' { plans = insert key (record plan { predecessor_nums = nums }) m'.plans } in
    if all_done m''.heap plan
    then send plan.notify (record { status = plan_ok; text = output }) m''
    else m''

unfoldable pub complete : Str → Str → Manager → Manager × Option Error
unfolding set_state owning_plan finish_in_plan
complete id output m = elim (lookup id m.nodes) [
  | none ↦ (m, some (no_such_node id))
  | some a ↦ elim (m.heap a).state [
    | done ↦ (m, none)
    | running ↦
        let m' = record (set_state a done m) { claimed = delete id m.claimed } in
        (
          elim (owning_plan id m'.plans) [
            | none ↦ m'
            | some (key, plan) ↦ finish_in_plan key plan id output m'
          ],
          none,
        )
    | other ↦ (m, some (wrong_state id other))
  ]
]
