-- ===== src/StateManager/Keeping.antt =====
-- internal/task_management_layer/task_state_manager/manager.go: the calls other than `Ingest` and
-- `Complete` against the schedule of a plan.
use lucinda.Base.{
  ℕ, ◌<◌, ◌≡◌, refl, sym, ap, subst, ◌∙◌, Str, Map, lookup, some, true, false, arith, Option-cases,
  inl, inr, pos,
}
use lucinda.Task.{NodeState, pending, TaskPlan, Addr, Heap}
use lucinda.StateManager.Core.{Manager, state_of, is_done}
use lucinda.StateManager.Lifecycle.{fail}
use lucinda.StateManager.Graph.{open_edges_ext}
use lucinda.StateManager.Schedule.{closed, is_released, waits_for, Scheduled}
use lucinda.StateManager.Calls.{
  Call, claims, starts, fails, abandons, disposes, lease_fires, deadline_fires, apply, apply-Moves,
}

-- A move that releases no node, makes none pending, and leaves done nodes done and others not.
abbrev pub Gentle : NodeState → NodeState → Type 0
Gentle s t =
    (is_done t ≡ is_done s)
    × (is_released t ≡ true → is_released s ≡ true)
    × (t ≡ pending → s ≡ pending)

closed-Gentle :
    (h h' : Heap) (nodes : Map Addr) (q : Str)
    → ((s : Str) (b : Addr) → lookup s nodes ≡ some b → Gentle (h b).state (h' b).state)
    → closed h' nodes q ≡ closed h nodes q
closed-Gentle h h' nodes q g = elim (Option-cases (lookup q nodes)) [
  | inl e ↦ ground arith
  | inr (c, e) ↦ ground (arith, (g q c e).0)
]

pub Gentle-Scheduled :
    (h h' : Heap) (p : TaskPlan)
    → ((s : Str) (b : Addr) → lookup s p.nodes ≡ some b → Gentle (h b).state (h' b).state)
    → Scheduled h p
    → Scheduled h' p
Gentle-Scheduled h h' p g v = record {
  counted = λ s b e. v.counted s b e ∙ ap pos (sym (same s));
  ordered = λ s b e r. same s ∙ v.ordered s b e ((g s b e).1 r);
  waiting = λ s b e w. subst (λ (n : ℕ). 0 < n) (sym (same s)) (v.waiting s b e ((g s b e).2 w));
}
  where
    same : (s : Str) → waits_for h' p s ≡ waits_for h p s
    same s =
        open_edges_ext (closed h p.nodes) (closed h' p.nodes) s p.successors
          (λ q. closed-Gentle h h' p.nodes q g)

-- Where the nodes of the plan have the same states.
pub same_states-Scheduled :
    (h h' : Heap) (p : TaskPlan)
    → ((s : Str) (b : Addr) → lookup s p.nodes ≡ some b → (h' b).state ≡ (h b).state)
    → Scheduled h p
    → Scheduled h' p
same_states-Scheduled h h' p same v =
    Gentle-Scheduled h h' p
      (λ s b e. (
        ap is_done (same s b e),
        (λ r. sym (ap is_released (same s b e)) ∙ r),
        (λ w. sym (same s b e) ∙ w),
      ))
      v

-- `Failed` does not look at the state of its node; this says that the node is not done.
abbrev pub SparesDone : Call → Manager → Type 0
SparesDone (fails id) m = (a : Addr) → lookup id m.nodes ≡ some a → is_done (state_of m a) ≡ false
SparesDone _ m = Unit

fail-Gentle :
    (id : Str) (m : Manager) (b : Addr)
    → SparesDone (fails id) m
    → Gentle (state_of m b) (state_of (fail id m).0 b)
unfolding fail
fail-Gentle id m b ok = elim (Option-cases (lookup id m.nodes)) [
  | inl e ↦ rw (e, fail) (refl, (λ r. r), (λ r. r))
  | inr (a, e) ↦ ground (arith, ok a e, e)
]

pub apply-Gentle :
    (c : Call) (m : Manager) (b : Addr)
    → SparesDone c m
    → Gentle (state_of m b) (state_of (apply c m).0 b)
apply-Gentle (fails id) m b ok = unfold apply in fail-Gentle id m b ok
apply-Gentle (claims id peer lease now) m b ok =
    ground (arith, apply-Moves (claims id peer lease now) m b)
apply-Gentle (starts id) m b ok = ground (arith, apply-Moves (starts id) m b)
apply-Gentle (abandons id) m b ok = ground (arith, apply-Moves (abandons id) m b)
apply-Gentle (disposes id) m b ok = ground (arith, apply-Moves (disposes id) m b)
apply-Gentle (lease_fires id) m b ok = ground (arith, apply-Moves (lease_fires id) m b)
apply-Gentle (deadline_fires text p) m b ok =
    ground (arith, apply-Moves (deadline_fires text p) m b)

-- Every call other than `Ingest` and `Complete`, and both timers, keep the schedule of every plan;
-- `Failed` does if its node is not done.
pub apply-Scheduled :
    (c : Call) (m : Manager) (p : TaskPlan)
    → SparesDone c m
    → Scheduled m.heap p
    → Scheduled (apply c m).0.heap p
apply-Scheduled c m p ok v =
    Gentle-Scheduled m.heap (apply c m).0.heap p (λ s b e. apply-Gentle c m b ok) v
