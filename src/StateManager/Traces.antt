-- ===== src/StateManager/Traces.antt =====
-- internal/task_management_layer/task_state_manager/manager.go: the runs of a state manager, call by
-- call and timer by timer, from a new one on.
use lucinda.Base.{
  ◌<◌, ◌≡◌, ap, Str, str_eq, str_eq_iff, Map, lookup, lookup_or, List, [], ◌∷◌, some, Bool, true,
  arith, ℤ, Bool-cases, Option-cases, inl, inr,
}
use lucinda.Task.{done, TaskNode, TaskPlan, Addr, Heap}
use lucinda.StateManager.Core.{Manager, state_of, new_task_state_manager}
use lucinda.StateManager.Ingest.{ingest}
use lucinda.StateManager.Complete.{complete}
use lucinda.StateManager.Graph.{occurrences, open_edges}
use lucinda.StateManager.Schedule.{closed, is_released, Scheduled}
use lucinda.StateManager.Start.{WellFormed}
use lucinda.StateManager.Calls.{Call, apply}
use lucinda.StateManager.Keeping.{SparesDone, same_states-Scheduled}
use lucinda.StateManager.Books.{Good, Fresh, ingest-Good, apply-Good}
use lucinda.StateManager.Completing.{complete-Good}

-- One call, or a timer that fires, or a write of new nodes to the heap, which the manager does not
-- know yet. The planner ingests well-formed plans of new nodes, and nobody reports the failure of a
-- node that is done.
pub data Step : Manager → Manager → Type 0 where
  allocates :
      (h : Heap) (m : Manager)
      → ((s : Str) (b : Addr) → lookup s m.nodes ≡ some b → h b ≡ m.heap b)
      → Step m (record m { heap = h })
  ingests :
      (p : TaskPlan) (now : ℤ) (m : Manager) → WellFormed p → Fresh p m → Step m (ingest p now m).0
  completes : (id output : Str) (m : Manager) → Step m (complete id output m).0
  calls : (c : Call) (m : Manager) → SparesDone c m → Step m (apply c m).0

pub data Reach : Manager → Type 0 where
  begins : (h : Heap) → Reach (new_task_state_manager h)
  goes_on : {m m' : Manager} → Reach m → Step m m' → Reach m'

allocates-Good :
    (h : Heap) (m : Manager)
    → ((s : Str) (b : Addr) → lookup s m.nodes ≡ some b → h b ≡ m.heap b)
    → Good m
    → Good (record m { heap = h })
allocates-Good h m same g = record {
  distinct = g.distinct;
  one_name = g.one_name;
  shape = g.shape;
  scheduled = λ k p e.
      same_states-Scheduled m.heap h p
        (λ s b f. ap (λ (n : TaskNode). n.state) (same s b (g.registered k p s b e f)))
        (g.scheduled k p e);
  registered = g.registered;
  apart = g.apart;
}

pub Step-Good : {m m' : Manager} → Step m m' → Good m → Good m'
Step-Good (allocates h m same) g = allocates-Good h m same g
Step-Good (ingests p now m w f) g = ingest-Good p now m w f g
Step-Good (completes id output m) g = complete-Good id output m g
Step-Good (calls c m ok) g = apply-Good c m ok g

new_manager-Good : (h : Heap) → Good (new_task_state_manager h)
unfolding new_task_state_manager lookup
new_manager-Good h = record {
  distinct = tt;
  one_name = λ s t b e. cc;
  shape = λ k p e. cc;
  scheduled = λ k p e. cc;
  registered = λ k p s b e f. cc;
  apart = λ k k' p p' s b b' e e' f f'. cc;
}

pub Reach-Good : {m : Manager} → Reach m → Good m
Reach-Good (begins h) = new_manager-Good h
Reach-Good (goes_on r s) = Step-Good s (Reach-Good r)

-- In every state that a run of the state manager reaches, whatever well-formed plans of new nodes,
-- calls and timers it had in whatever order, as long as Failed was called for no done node, each plan
-- in its books is under its schedule: its counts are the numbers of open
-- edges, the nodes that were released have no open edge, and those that are pending have one.
pub Reach-Scheduled :
    {m : Manager} (k : Str) (p : TaskPlan)
    → Reach m
    → lookup k m.plans ≡ some p
    → Scheduled m.heap p
Reach-Scheduled k p r e = (Reach-Good r).scheduled k p e

no_open_edge :
    (d : Str → Bool) (s q : Str) (g : Map (List Str))
    → open_edges d g s ≡ 0
    → 0 < occurrences s (lookup_or [] q g)
    → d q ≡ true
unfolding open_edges lookup occurrences
no_open_edge d s q [] e h = absurd (ground arith)
no_open_edge d s q ((j, ss) ∷ rest) e h = elim (Bool-cases (str_eq j q)) [
  | inl hit ↦ ground (arith, str_eq_iff j q, hit)
  | inr miss ↦ no_open_edge d s q rest (ground arith) (ground (arith, miss))
]

-- In every state that a run of the state manager reaches with well-formed plans of new nodes, and
-- Failed called for no done node, a node that is Ready, Claimed, Running or
-- Done has all its predecessors done: no task of a plan runs before the tasks that it depends on.
pub runs_after_predecessors :
    {m : Manager} (k s q : Str) (p : TaskPlan) (b : Addr)
    → Reach m
    → lookup k m.plans ≡ some p
    → lookup s p.nodes ≡ some b
    → is_released (state_of m b) ≡ true
    → 0 < occurrences s (lookup_or [] q p.successors)
    → (a : Addr) × (lookup q p.nodes ≡ some a) × (state_of m a ≡ done)
runs_after_predecessors {m} k s q p b r e at rel edge =
    let v = Reach-Scheduled k p r e in
    let shut = no_open_edge (closed m.heap p.nodes) s q p.successors (v.ordered s b at rel) edge in
    elim (Option-cases (lookup q p.nodes)) [
      | inl gone ↦ absurd (ground (arith, shut, gone))
      | inr (a, there) ↦ (a, there, ground (arith, shut, there))
    ]
