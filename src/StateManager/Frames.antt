-- ===== src/StateManager/Frames.antt =====
-- internal/task_management_layer/task_state_manager/manager.go: what the loops leave as it is.
use lucinda.Base.{
  ◌≡◌, refl, ◌∙◌, ap, Str, Map, lookup, lookup_or, insert, List, [], ◌∷◌, Option, none, some, arith,
  ℤ, Option-cases, Bool-cases, inl, inr,
}
use lucinda.Task.{pending, ready, TaskPlan, PlanResult, plan_ok, plan_timeout, Addr, Chan}
use lucinda.Messages.{task_ready}
use lucinda.StateManager.Lifecycle.{claim, start, fail, abandon, fire_lease}
use lucinda.StateManager.Core.{Manager, set_state, publish, all_done, send}
use lucinda.StateManager.Ingest.{
  register_nodes, ready_roots, publish_roots, start_deadline_watch, ingest,
}
use lucinda.StateManager.Complete.{visit_successor, cascade, finish_in_plan}
use lucinda.StateManager.Closing.{dispose_node, dispose_nodes, dispose, fire_deadline}
use lucinda.StateManager.Calls.{
  Call, apply, claims, starts, fails, abandons, disposes, lease_fires, deadline_fires,
}

-- The plans and the registered nodes are the same.
abbrev pub SameBooks : Manager → Manager → Type 0
SameBooks m m' = (m'.plans ≡ m.plans) × (m'.nodes ≡ m.nodes)

then_same : (m m' m'' : Manager) → SameBooks m m' → SameBooks m' m'' → SameBooks m m''
then_same m m' m'' s t = (t.0 ∙ s.0, t.1 ∙ s.1)

register_nodes_plans : (ns : Map Addr) (m : Manager) → (register_nodes ns m).plans ≡ m.plans
unfolding register_nodes set_state
register_nodes_plans [] m = refl
register_nodes_plans ((k, a) ∷ rest) m =
    register_nodes_plans rest
      (set_state a pending (record m { nodes = insert (m.heap a).id a m.nodes }))

ready_roots_frame :
    (p : TaskPlan) (rs : List Str) (m : Manager) → SameBooks m (ready_roots p rs m).0
unfolding ready_roots set_state
ready_roots_frame p [] m = (refl, refl)
ready_roots_frame p (r ∷ rs) m = elim (Option-cases (lookup r p.nodes)) [
  | inl e ↦ rw (e, ready_roots) (ready_roots_frame p rs m)
  | inr (c, e) ↦ rw (e, ready_roots) (ready_roots_frame p rs (set_state c ready m))
]

publish_roots_frame : (roots : List Addr) (m : Manager) → SameBooks m (publish_roots roots m)
unfolding publish_roots publish
publish_roots_frame [] m = (refl, refl)
publish_roots_frame (a ∷ rest) m = publish_roots_frame rest (publish task_ready a m)

start_deadline_watch_frame :
    (p : TaskPlan) (now : ℤ) (m : Manager) → SameBooks m (start_deadline_watch p now m)
unfolding start_deadline_watch
start_deadline_watch_frame p now m = ground arith

-- `Ingest` under a fresh ID puts the plan into the book, and its nodes as the loop registers them.
pub ingest_books :
    (p : TaskPlan) (now : ℤ) (m : Manager)
    → lookup p.id m.plans ≡ none
    → ((ingest p now m).0.plans ≡ insert p.id p m.plans)
      × ((ingest p now m).0.nodes
          ≡ (register_nodes p.nodes (record m { plans = insert p.id p m.plans })).nodes)
unfolding ingest
ingest_books p now m fresh =
    let m₁ = register_nodes p.nodes (record m { plans = insert p.id p m.plans }) in
    let (m₂, roots) = ready_roots p p.roots m₁ in
    let m₃ = start_deadline_watch p now m₂ in
    let same =
      then_same m₁ m₃ (publish_roots roots m₃)
        (then_same m₁ m₂ m₃ (ready_roots_frame p p.roots m₁) (start_deadline_watch_frame p now m₂))
        (publish_roots_frame roots m₃) in
    rw (fresh, ingest)
      (same.0 ∙ register_nodes_plans p.nodes (record m { plans = insert p.id p m.plans }), same.1)

dispose_nodes_frame : (ns : Map Addr) (m : Manager) → SameBooks m (dispose_nodes ns m)
unfolding dispose_nodes dispose_node
dispose_nodes_frame [] m = (refl, refl)
dispose_nodes_frame ((k, a) ∷ rest) m = ground (arith, dispose_nodes_frame rest (dispose_node a m))

send_frame : (c : Option Chan) (r : PlanResult) (m : Manager) → SameBooks m (send c r m)
unfolding send
send_frame none r m = (refl, refl)
send_frame (some c) r m = (refl, refl)

-- No call but `Ingest` and `Complete` changes the books.
pub apply_books : (c : Call) (m : Manager) → SameBooks m (apply c m).0
unfolding apply claim start fail abandon fire_lease dispose fire_deadline
apply_books (claims id peer lease now) m = ground arith
apply_books (starts id) m = ground arith
apply_books (fails id) m = ground arith
apply_books (abandons id) m = ground arith
apply_books (disposes id) m = elim (Option-cases (lookup id m.plans)) [
  | inl e ↦ ground (arith, e)
  | inr (p, e) ↦ ground (arith, e, dispose_nodes_frame p.nodes m)
]
apply_books (lease_fires id) m = ground arith
apply_books (deadline_fires text p) m = ground (
  arith,
  dispose_nodes_frame p.nodes m,
  send_frame p.notify (record { status = plan_timeout; text = text p.id })
      (dispose_nodes p.nodes m),
)

visit_books :
    (ns : Map Addr) (t : Str) (m : Manager) (nums : Map ℤ)
    → SameBooks m (visit_successor ns t (m, nums)).0
unfolding visit_successor set_state publish
visit_books ns t m nums = ground arith

cascade_books :
    (ns : Map Addr) (ts : List Str) (m : Manager) (nums : Map ℤ)
    → SameBooks m (cascade ns ts (m, nums)).0
unfolding cascade
cascade_books ns [] m nums = (refl, refl)
cascade_books ns (t ∷ ts) m nums =
    let (m', nums') = visit_successor ns t (m, nums) in
    then_same m m' (cascade ns ts (m', nums')).0 (visit_books ns t m nums)
      (cascade_books ns ts m' nums')

-- `Complete` enters the plan with its new counts.
pub finish_in_plan_books :
    (key id output : Str) (p : TaskPlan) (m : Manager)
    → let nums = (cascade p.nodes (lookup_or [] id p.successors) (m, p.predecessor_nums)).1 in
      let m' = finish_in_plan key p id output m in
      (m'.plans ≡ insert key (record p { predecessor_nums = nums }) m.plans) × (m'.nodes ≡ m.nodes)
unfolding finish_in_plan
finish_in_plan_books key id output p m =
    let (m', nums) = cascade p.nodes (lookup_or [] id p.successors) (m, p.predecessor_nums) in
    let p' : TaskPlan = record p { predecessor_nums = nums } in
    let m'' : Manager = record m' { plans = insert key p' m'.plans } in
    let r : PlanResult = record { status = plan_ok; text = output } in
    let same = cascade_books p.nodes (lookup_or [] id p.successors) m p.predecessor_nums in
    let sent = send_frame p.notify r m'' in
    elim (Bool-cases (all_done m''.heap p)) [
      | inl e ↦ rw e (sent.0 ∙ ap (insert key p') same.0, sent.1 ∙ same.1)
      | inr e ↦ rw e (ap (insert key p') same.0, same.1)
    ]
