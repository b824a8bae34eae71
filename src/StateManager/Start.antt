-- ===== src/StateManager/Start.antt =====
-- internal/task_management_layer/task_state_manager/manager.go: `Ingest` and the schedule of a fresh
-- plan.
use lucinda.Base.{
  ◌≡◌, refl, sym, ap, ◌∙◌, Str, str_eq, str_eq_iff, Map, lookup, lookup_or, insert, List, [], ◌∷◌,
  none, some, any, false, ◌==◌, if◌then◌else◌, arith, Bool-cases, Option-cases, inl, inr, ℤ, pos,
}
use lucinda.Task.{pending, ready, TaskPlan, Addr, Heap}
use lucinda.Messages.{task_ready}
use lucinda.StateManager.Core.{Manager, state_of, set_state, publish}
use lucinda.StateManager.Ingest.{
  register_nodes, ready_roots, publish_roots, start_deadline_watch, ingest,
}
use lucinda.StateManager.Graph.{open_edges, open_edges_ext}
use lucinda.StateManager.Cascade.{Injective}
use lucinda.StateManager.Schedule.{closed, waits_for, Shape, Scheduled}

-- What a planner owes: the counts are the numbers of edges, and the roots are the nodes with none.
pub record WellFormed (p : TaskPlan) : Type 0 where
  pub shape : Shape p
  pub in_degrees :
      (s : Str) (b : Addr)
      → lookup s p.nodes ≡ some b
      → lookup_or (pos 0) s p.predecessor_nums ≡ pos (open_edges (λ _. false) p.successors s)
  pub rooted :
      (s : Str) (b : Addr)
      → lookup s p.nodes ≡ some b
      → any (λ r. str_eq r s) p.roots ≡ (open_edges (λ _. false) p.successors s == 0)

register_keeps :
    (ns : Map Addr) (m : Manager) (b : Addr)
    → state_of m b ≡ pending
    → state_of (register_nodes ns m) b ≡ pending
unfolding register_nodes
register_keeps [] m b h = h
register_keeps ((k, a) ∷ rest) m b h = register_keeps rest _ b (ground arith)

register_pending :
    (ns : Map Addr) (m : Manager) (s : Str) (b : Addr)
    → lookup s ns ≡ some b
    → state_of (register_nodes ns m) b ≡ pending
unfolding register_nodes lookup
register_pending [] m s b h = cc
register_pending ((k, a) ∷ rest) m s b h = elim (Bool-cases (str_eq k s)) [
  | inl e ↦ register_keeps rest _ b (ground arith)
  | inr e ↦ register_pending rest _ s b (ground arith)
]

ready_roots_state :
    (p : TaskPlan) (s : Str) (b : Addr)
    → Injective p.nodes
    → lookup s p.nodes ≡ some b
    → (rs : List Str) (m : Manager)
    → state_of (ready_roots p rs m).0 b ≡ (if any (λ r. str_eq r s) rs then ready else state_of m b)
unfolding ready_roots
ready_roots_state p s b inj at [] m = refl
ready_roots_state p s b inj at (r ∷ rs) m = elim (Option-cases (lookup r p.nodes)) [
  | inl e ↦
      rw (e, ready_roots)
        (ground (arith, str_eq_iff r s, at, e, ready_roots_state p s b inj at rs m))
  | inr (c, e) ↦
      rw (e, ready_roots)
        (ground (
          arith,
          str_eq_iff r s,
          at,
          e,
          inj s r b at,
          ready_roots_state p s b inj at rs (set_state c ready m),
        ))
]

publish_roots_heap : (roots : List Addr) (m : Manager) → (publish_roots roots m).heap ≡ m.heap
unfolding publish_roots
publish_roots_heap [] m = refl
publish_roots_heap (a ∷ rest) m = publish_roots_heap rest (publish task_ready a m)

start_deadline_watch_heap :
    (p : TaskPlan) (now : ℤ) (m : Manager) → (start_deadline_watch p now m).heap ≡ m.heap
unfolding start_deadline_watch
start_deadline_watch_heap p now m = ground arith

pub ingest_heap :
    (p : TaskPlan) (now : ℤ) (m : Manager)
    → lookup p.id m.plans ≡ none
    → (ingest p now m).0.heap
      ≡ (ready_roots p p.roots
          (register_nodes p.nodes (record m { plans = insert p.id p m.plans }))).0.heap
unfolding ingest
ingest_heap p now m fresh =
    let (m₂, roots) =
      ready_roots p p.roots (register_nodes p.nodes (record m { plans = insert p.id p m.plans })) in
    rw (fresh, ingest)
      (publish_roots_heap roots (start_deadline_watch p now m₂)
        ∙ start_deadline_watch_heap p now m₂)

module _ (p : TaskPlan) (now : ℤ) (m : Manager) (fresh : lookup p.id m.plans ≡ none)
    (w : WellFormed p) where
  -- Right after `Ingest` of a well-formed plan under a fresh ID, a node of it is Ready if no edge
  -- leads to it, and else Pending.
  pub ingest_state :
      (s : Str) (b : Addr)
      → lookup s p.nodes ≡ some b
      → state_of (ingest p now m).0 b
        ≡ (if open_edges (λ _. false) p.successors s == 0 then ready else pending)
  ingest_state s b at =
      let m₀ : Manager = record m { plans = insert p.id p m.plans } in
      let m₁ = register_nodes p.nodes m₀ in
      ground (
        arith,
        ap (λ (h : Heap). (h b).state) (ingest_heap p now m fresh),
        ready_roots_state p s b w.shape.injective at p.roots m₁,
        register_pending p.nodes m₀ s b at,
        w.rooted s b at,
      )

  none_closed : (q : Str) → closed (ingest p now m).0.heap p.nodes q ≡ false
  none_closed q = elim (Option-cases (lookup q p.nodes)) [
    | inl e ↦ ground arith
    | inr (b, e) ↦ ground (arith, ingest_state q b e)
  ]

  same_edges :
      (s : Str) → waits_for (ingest p now m).0.heap p s ≡ open_edges (λ _. false) p.successors s
  same_edges s =
      open_edges_ext (λ _. false) (closed (ingest p now m).0.heap p.nodes) s p.successors
        none_closed

  -- `Ingest` of a well-formed plan under a fresh ID starts the plan's schedule.
  pub ingest-Scheduled : Scheduled (ingest p now m).0.heap p
  ingest-Scheduled = record {
    counted = λ s b e. w.in_degrees s b e ∙ ap pos (sym (same_edges s));
    ordered = λ s b e r. ground (arith, same_edges s, ingest_state s b e);
    waiting = λ s b e t. ground (arith, same_edges s, ingest_state s b e);
  }
