-- ===== src/StateManager/Calls.antt =====
-- internal/task_management_layer/task_state_manager/manager.go: the calls other than `Ingest` and
-- `Complete`, and the two timers, as data: where each may take a node, and what an error leaves
-- behind.
use lucinda.Base.{
  ◌≡◌, refl, Str, Map, lookup, [], ◌∷◌, Option, none, some, Bool, true, false, arith, Option-cases,
  inl, inr, ◌⊎◌, ℤ,
}
use lucinda.Task.{
  NodeState, ready, claimed, running, done, failed, disposed, TaskPlan, PlanResult, plan_timeout,
  Addr, Chan,
}
use lucinda.StateManager.Core.{Error, Manager, state_of, send}
use lucinda.StateManager.Lifecycle.{claim, start, fail, abandon, fire_lease}
use lucinda.StateManager.Closing.{dispose_node, dispose_nodes, dispose, fire_deadline}

-- The calls of the interface, but for `Ingest` and `Complete`, and the timers that fire.
pub data Call : Type 0 where
  claims : Str → Str → ℤ → ℤ → Call
  starts : Str → Call
  fails : Str → Call
  abandons : Str → Call
  disposes : Str → Call
  lease_fires : Str → Call
  deadline_fires : (Str → Str) → TaskPlan → Call

unfoldable pub apply : Call → Manager → Manager × Option Error
apply (claims id peer lease now) m = claim id peer lease now m
apply (starts id) m = start id m
apply (fails id) m = fail id m
apply (abandons id) m = abandon id m
apply (disposes id) m = dispose id m
apply (lease_fires id) m = (fire_lease id m, none)
apply (deadline_fires text p) m = (fire_deadline text p m, none)

-- A call other than `Ingest` and `Complete` that returns an error leaves the whole state as it
-- was.
apply_error_unchanged :
    (c : Call) (m : Manager) {e : Error} → (apply c m).1 ≡ some e → (apply c m).0 ≡ m
unfolding apply claim start fail abandon dispose
apply_error_unchanged (claims id peer lease now) m h = ground arith
apply_error_unchanged (starts id) m h = ground arith
apply_error_unchanged (fails id) m h = ground arith
apply_error_unchanged (abandons id) m h = ground arith
apply_error_unchanged (disposes id) m h = ground arith
apply_error_unchanged (lease_fires id) m h = cc
apply_error_unchanged (deadline_fires text p) m h = cc

-- A node that is neither done, failed nor disposed.
abbrev pub is_live : NodeState → Bool
is_live done = false
is_live failed = false
is_live disposed = false
is_live _ = true

-- Where a call may take a node from state `s`.
abbrev pub Moves : Call → NodeState → NodeState → Type 0
Moves (claims id peer lease now) s t = (t ≡ s) ⊎ (s ≡ ready) × (t ≡ claimed)
Moves (starts id) s t = (t ≡ s) ⊎ (s ≡ claimed) × (t ≡ running)
Moves (fails id) s t = (t ≡ s) ⊎ (t ≡ failed)
Moves (abandons id) s t = (t ≡ s) ⊎ (s ≡ claimed) × (t ≡ ready)
Moves (disposes id) s t = (t ≡ s) ⊎ (is_live s ≡ true) × (t ≡ disposed)
Moves (lease_fires id) s t = (t ≡ s) ⊎ (s ≡ claimed) × (t ≡ ready)
Moves (deadline_fires text p) s t = (t ≡ s) ⊎ (is_live s ≡ true) × (t ≡ disposed)

abbrev Closes : NodeState → NodeState → Type 0
Closes s t = (t ≡ s) ⊎ (is_live s ≡ true) × (t ≡ disposed)

dispose_node-Closes :
    (a b : Addr) (m : Manager) → Closes (state_of m b) (state_of (dispose_node a m) b)
unfolding dispose_node
dispose_node-Closes a b m = ground arith

dispose_nodes-Closes :
    (ns : Map Addr) (b : Addr) (m : Manager)
    → Closes (state_of m b) (state_of (dispose_nodes ns m) b)
unfolding dispose_nodes
dispose_nodes-Closes [] b m = inl refl
dispose_nodes-Closes ((k, a) ∷ rest) b m =
    ground (arith, dispose_node-Closes a b m, dispose_nodes-Closes rest b (dispose_node a m))

send_state :
    (c : Option Chan) (r : PlanResult) (m : Manager) (b : Addr)
    → state_of (send c r m) b ≡ state_of m b
unfolding send
send_state none r m b = refl
send_state (some c) r m b = refl

-- Every call other than `Ingest` and `Complete`, and both timers, move every node along the edges
-- of their own, or not at all.
pub apply-Moves :
    (c : Call) (m : Manager) (b : Addr) → Moves c (state_of m b) (state_of (apply c m).0 b)
unfolding apply claim start fail abandon dispose fire_lease fire_deadline
apply-Moves (claims id peer lease now) m b = ground arith
apply-Moves (starts id) m b = ground arith
apply-Moves (fails id) m b = ground arith
apply-Moves (abandons id) m b = ground arith
apply-Moves (disposes id) m b = elim (Option-cases (lookup id m.plans)) [
  | inl e ↦ rw (e, dispose) (inl refl)
  | inr (p, e) ↦ rw (e, dispose) (dispose_nodes-Closes p.nodes b m)
]
apply-Moves (lease_fires id) m b = ground arith
apply-Moves (deadline_fires text p) m b = ground (
  arith,
  dispose_nodes-Closes p.nodes b m,
  send_state p.notify (record { status = plan_timeout; text = text p.id }) (dispose_nodes p.nodes m)
      b,
)
