-- ===== src/StateManager/Schedule.antt =====
-- internal/task_management_layer/task_state_manager/manager.go: the schedule of a plan, what its
-- counts and states have to do with its edges.
use lucinda.Base.{
  ℕ, ◌+◌, ◌<◌, ◌≡◌, refl, sym, ap, ◌∙◌, Str, str_eq, str_eq_iff, Map, lookup, lookup_or, List, [],
  none, some, Bool, true, false, ◌&&◌, ◌==◌, ltb, if◌then◌else◌, arith, Option-cases, inl, inr, ℤ,
  pos, int_min_abs,
}
use lucinda.Task.{NodeState, pending, ready, claimed, running, done, TaskPlan, Addr, Heap}
use lucinda.StateManager.Core.{Manager, state_of, set_state, is_done}
use lucinda.StateManager.Complete.{cascade}
use lucinda.StateManager.Graph.{
  occurrences, open_edges, open_edges_close, open_edges_ext, open_edges-le, Distinct,
}
use lucinda.StateManager.Cascade.{Injective, ready_events, cascade_count}

-- The node of that name is done. A name that the plan does not have is never done.
abbrev pub closed : Heap → Map Addr → Str → Bool
closed h nodes p = elim (lookup p nodes) [ none ↦ false | some a ↦ is_done (h a).state ]

-- The node was released to run.
abbrev pub is_released : NodeState → Bool
is_released ready = true
is_released claimed = true
is_released running = true
is_released done = true
is_released _ = false

abbrev pub waits_for : Heap → TaskPlan → Str → ℕ
waits_for h plan s = open_edges (closed h plan.nodes) plan.successors s

-- What no operation changes: names and nodes correspond, and the counters do not overflow.
pub record Shape (plan : TaskPlan) : Type 0 where
  pub injective : Injective plan.nodes
  pub distinct : Distinct plan.successors
  pub small : (s : Str) → open_edges (λ _. false) plan.successors s < int_min_abs

pub record Scheduled (h : Heap) (plan : TaskPlan) : Type 0 where
  pub counted :
      (s : Str) (b : Addr)
      → lookup s plan.nodes ≡ some b
      → lookup_or (pos 0) s plan.predecessor_nums ≡ pos (waits_for h plan s)
  pub ordered :
      (s : Str) (b : Addr)
      → lookup s plan.nodes ≡ some b
      → is_released (h b).state ≡ true
      → waits_for h plan s ≡ 0
  pub waiting :
      (s : Str) (b : Addr)
      → lookup s plan.nodes ≡ some b
      → (h b).state ≡ pending
      → 0 < waits_for h plan s

-- A completed node, and the cascade from it.
module _ (plan : TaskPlan) (m : Manager) (id : Str) (a : Addr) (at : lookup id plan.nodes ≡ some a)
    (is_running : (m.heap a).state ≡ running) (sh : Shape plan) (v : Scheduled m.heap plan) where
  abbrev before : Str → Bool
  before = closed m.heap plan.nodes

  abbrev after : Str → Bool
  after p = if str_eq p id then true else before p

  abbrev edges : List Str
  edges = lookup_or [] id plan.successors

  abbrev ended : Manager × Map ℤ
  ended = cascade plan.nodes edges (set_state a done m, plan.predecessor_nums)

  pub balance :
      (s : Str) → open_edges after plan.successors s + occurrences s edges ≡ waits_for m.heap plan s
  balance s =
      open_edges_close before after id s plan.successors (λ p. refl) (ground arith) sh.distinct

  room : (s : Str) → waits_for m.heap plan s < int_min_abs
  room s = omega (arith, open_edges-le before s plan.successors, sh.small s)

  pub node_after :
      (s : Str) (b : Addr)
      → lookup s plan.nodes ≡ some b
      → (lookup_or (pos 0) s ended.1 ≡ pos (open_edges after plan.successors s))
        × (state_of ended.0 b ≡ (
            if ltb 0 (occurrences s edges) && (open_edges after plan.successors s == 0)
            then ready
            else if str_eq s id
            then done
            else state_of m b))
        × (ready_events b ended.0.published
            ≡ ready_events b m.published
              + (if ltb 0 (occurrences s edges) && (open_edges after plan.successors s == 0)
                  then 1
                  else 0))
  unfolding set_state
  node_after s b e = ground (
    arith,
    balance s,
    sh.injective s id b e,
    sh.injective s id a,
    str_eq_iff s id,
    at,
    cascade_count plan.nodes s b e sh.injective edges (set_state a done m) plan.predecessor_nums
        (waits_for m.heap plan s) (v.counted s b e) (room s),
  )

  closed-after : (p : Str) → closed ended.0.heap plan.nodes p ≡ after p
  closed-after p = elim (Option-cases (lookup p plan.nodes)) [
    | inl e ↦ ground (arith, str_eq_iff p id, at, e)
    | inr (c, e) ↦
        ground
          (arith, str_eq_iff p id, at, e, node_after p c e, balance p, v.ordered p c e, is_running)
  ]

  pub waits_after : (s : Str) → waits_for ended.0.heap plan s ≡ open_edges after plan.successors s
  waits_after s =
      open_edges_ext after (closed ended.0.heap plan.nodes) s plan.successors closed-after

  pub cascade-Scheduled : Scheduled ended.0.heap (record plan { predecessor_nums = ended.1 })
  cascade-Scheduled = record {
    counted = λ s b e. (node_after s b e).0 ∙ ap pos (sym (waits_after s));
    ordered = λ s b e r.
        ground
          (arith, waits_after s, node_after s b e, balance s, v.ordered s b e, str_eq_iff s id, at);
    waiting = λ s b e w.
        ground
          (arith, waits_after s, node_after s b e, balance s, v.waiting s b e, str_eq_iff s id, at);
  }

  -- The same in terms of what the node waits for, before and after.
  pub node_released :
      (s : Str) (b : Addr)
      → lookup s plan.nodes ≡ some b
      → let freed = ltb 0 (waits_for m.heap plan s) && (waits_for ended.0.heap plan s == 0) in
        (state_of ended.0 b ≡ (if str_eq s id then done else if freed then ready else state_of m b))
        × (ready_events b ended.0.published ≡ ready_events b m.published + (if freed then 1 else 0))
  node_released s b e = ground (
    arith,
    node_after s b e,
    waits_after s,
    balance s,
    v.ordered s b e,
    str_eq_iff s id,
    at,
    e,
    is_running,
  )
