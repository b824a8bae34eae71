-- ===== src/StateManager/Queries.antt =====
-- internal/task_management_layer/task_state_manager/manager.go: `Expired` and the queries.
use lucinda.Base.{
  Str, Map, lookup, ℤ, pos, ltb_ℤ, List, [], ◌∷◌, Option, none, some, Bool, false, ◌&&◌,
  if◌then◌else◌,
}
use lucinda.Task.{NodeState, claimed, TaskNode, TaskPlan, Addr, Heap}
use lucinda.StateManager.Core.{Manager, all_done}

unfoldable pub is_expired : ℤ → TaskNode → Bool
is_expired now n = elim n.state [
  | claimed ↦ ltb_ℤ (pos 0) n.expires_at && ltb_ℤ n.expires_at now
  | _ ↦ false
]

unfoldable pub expired_in : Heap → ℤ → Map Addr → List TaskNode
unfolding is_expired
expired_in h now [] = []
expired_in h now ((k, a) ∷ rest) =
    let found = expired_in h now rest in if is_expired now (h a) then h a ∷ found else found

unfoldable pub expired : ℤ → Manager → List TaskNode
unfolding expired_in
expired now m = expired_in m.heap now m.nodes

unfoldable pub plan : Str → Manager → Option TaskPlan
plan id m = lookup id m.plans

unfoldable pub node_states : Heap → Map Addr → Map NodeState
node_states h [] = []
node_states h ((k, a) ∷ rest) = (k, (h a).state) ∷ node_states h rest

unfoldable pub status : Str → Manager → Option (Map NodeState)
unfolding node_states
status id m = elim (lookup id m.plans) [ none ↦ none | some p ↦ some (node_states m.heap p.nodes) ]

unfoldable pub is_complete : Str → Manager → Option Bool
unfolding all_done
is_complete id m = elim (lookup id m.plans) [ none ↦ none | some p ↦ some (all_done m.heap p) ]
