-- ===== src/StateManager/Lifecycle.antt =====
-- internal/task_management_layer/task_state_manager/manager.go: `Claim` with its watchdog, `Start`, `Failed`, `Abandon`.
use lucinda.Base.{Str, lookup, lookup_or, insert, delete, ℤ, add64, [], ◌∷◌, Option, none, some}
use lucinda.Task.{NodeState, ready, claimed, running, failed, Addr}
use lucinda.Messages.{task_republished}
use lucinda.StateManager.Core.{
  lease_watch, Error, no_such_node, already_claimed, wrong_state, Manager, write, set_state,
  release_node, publish,
}

unfoldable pub set_lease : Addr → Str → ℤ → Manager → Manager
unfolding write
set_lease a peer expires m = record m {
  heap =
      write a
        (record (m.heap a) { state = NodeState.claimed; claimed_by = peer; expires_at = expires })
        m.heap;
}

-- `now` is in seconds. The watchdog's timer runs for `leaseDuration` seconds.
unfoldable pub claim : Str → Str → ℤ → ℤ → Manager → Manager × Option Error
unfolding set_lease
claim id peer lease now m = elim (lookup id m.nodes) [
  | none ↦ (m, some (no_such_node id))
  | some a ↦ elim (m.heap a).state [
    | claimed ↦ (m, some (already_claimed id (lookup_or [] id m.claimed)))
    | ready ↦
        let expires = add64 now lease in
        let m' = set_lease a peer expires m in
        (
          record m' {
            claimed = insert id peer m.claimed;
            spawned = lease_watch id expires ∷ m.spawned;
          },
          none,
        )
    | other ↦ (m, some (wrong_state id other))
  ]
]

unfoldable pub start : Str → Manager → Manager × Option Error
unfolding set_state
start id m = elim (lookup id m.nodes) [
  | none ↦ (m, some (no_such_node id))
  | some a ↦ elim (m.heap a).state [
    | running ↦ (m, none)
    | claimed ↦ (set_state a running m, none)
    | other ↦ (m, some (wrong_state id other))
  ]
]

unfoldable pub reopen : Str → Addr → NodeState → Manager → Manager
unfolding release_node publish
reopen id a s m =
    publish task_republished a (record (release_node a s m) { claimed = delete id m.claimed })

unfoldable pub fail : Str → Manager → Manager × Option Error
unfolding reopen
fail id m = elim (lookup id m.nodes) [
  | none ↦ (m, some (no_such_node id))
  | some a ↦ (reopen id a failed m, none)
]

unfoldable pub abandon : Str → Manager → Manager × Option Error
unfolding reopen
abandon id m = elim (lookup id m.nodes) [
  | none ↦ (m, some (no_such_node id))
  | some a ↦ elim (m.heap a).state [
    | claimed ↦ (reopen id a ready m, none)
    | other ↦ (m, some (wrong_state id other))
  ]
]

unfoldable pub fire_lease : Str → Manager → Manager
unfolding reopen
fire_lease id m = elim (lookup id m.nodes) [
  | none ↦ m
  | some a ↦ elim (m.heap a).state [ claimed ↦ reopen id a ready m | _ ↦ m ]
]
