-- ===== src/StateManager/Reports.antt =====
-- internal/task_management_layer/task_state_manager/manager.go: how many results that are ok each method
-- sends on a channel.
use lucinda.Base.{
  ℕ, ◌+◌, ◌≡◌, refl, ◌∙◌, ap, Str, Map, lookup, lookup_or, insert, List, [], ◌∷◌, ◌++◌, Option,
  none, some, Bool, true, false, ◌==◌, ◌&&◌, if◌then◌else◌, arith, ℤ, Option-cases, Bool-cases, inl,
  inr,
}
use lucinda.Task.{
  pending, ready, TaskPlan, PlanResult, PlanStatus, plan_ok, plan_timeout, Addr, Chan,
}
use lucinda.Messages.{task_ready}
use lucinda.StateManager.Core.{Manager, all_done, send, set_state, publish}
use lucinda.StateManager.Ingest.{
  register_nodes, ready_roots, publish_roots, start_deadline_watch, ingest,
}
use lucinda.StateManager.Lifecycle.{claim, start, fail, abandon, fire_lease}
use lucinda.StateManager.Complete.{cascade, finish_in_plan}
use lucinda.StateManager.Closing.{dispose_nodes, dispose, fire_deadline}
use lucinda.StateManager.Calls.{
  Call, apply, claims, starts, fails, abandons, disposes, lease_fires, deadline_fires,
}
use lucinda.StateManager.Endings.{dispose_nodes_quiet}
use lucinda.StateManager.Progress.{finish_in_plan_lem}
use lucinda.StateManager.Completion.{cascade_frame}

abbrev is_ok : PlanStatus → Bool
is_ok plan_ok = true
is_ok _ = false

abbrev pub counts : Chan → Chan × PlanResult → ℕ
counts c (d, r) = if d == c && is_ok r.status then 1 else 0

-- The results that are ok on a channel.
abbrev pub oks : Chan → List (Chan × PlanResult) → ℕ
oks c [] = 0
oks c (e ∷ rest) = counts c e + oks c rest

oks-append : (c : Chan) (xs ys : List (Chan × PlanResult)) → oks c (xs ++ ys) ≡ oks c xs + oks c ys
oks-append c [] ys = omega arith
oks-append c (e ∷ rest) ys = omega (arith, oks-append c rest ys)

-- What a send to a plan's channel adds.
abbrev pub adds : Chan → Option Chan → PlanResult → ℕ
adds c none r = 0
adds c (some d) r = counts c (d, r)

oks-send :
    (c : Chan) (o : Option Chan) (r : PlanResult) (m : Manager)
    → oks c (send o r m).sent ≡ oks c m.sent + adds c o r
unfolding send
oks-send c none r m = omega arith
oks-send c (some d) r m = omega (arith, oks-append c m.sent ((d, r) ∷ []))

register_nodes_sent : (ns : Map Addr) (m : Manager) → (register_nodes ns m).sent ≡ m.sent
unfolding register_nodes set_state
register_nodes_sent [] m = refl
register_nodes_sent ((k, a) ∷ rest) m =
    register_nodes_sent rest
      (set_state a pending (record m { nodes = insert (m.heap a).id a m.nodes }))

ready_roots_sent :
    (p : TaskPlan) (rs : List Str) (m : Manager) → (ready_roots p rs m).0.sent ≡ m.sent
unfolding ready_roots set_state
ready_roots_sent p [] m = refl
ready_roots_sent p (r ∷ rs) m = elim (Option-cases (lookup r p.nodes)) [
  | inl e ↦ rw (e, ready_roots) (ready_roots_sent p rs m)
  | inr (c, e) ↦ rw (e, ready_roots) (ready_roots_sent p rs (set_state c ready m))
]

publish_roots_sent : (roots : List Addr) (m : Manager) → (publish_roots roots m).sent ≡ m.sent
unfolding publish_roots publish
publish_roots_sent [] m = refl
publish_roots_sent (a ∷ rest) m = publish_roots_sent rest (publish task_ready a m)

-- `Ingest` sends nothing.
pub ingest_sent : (p : TaskPlan) (now : ℤ) (m : Manager) → (ingest p now m).0.sent ≡ m.sent
unfolding ingest start_deadline_watch
ingest_sent p now m = elim (Option-cases (lookup p.id m.plans)) [
  | inr (q, e) ↦ rw (e, ingest) refl
  | inl e ↦
      let m₁ = register_nodes p.nodes (record m { plans = insert p.id p m.plans }) in
      let (m₂, roots) = ready_roots p p.roots m₁ in
      let m₃ = start_deadline_watch p now m₂ in
      let watched : m₃.sent ≡ m₂.sent = ground arith in
      rw (e, ingest)
        (publish_roots_sent roots m₃
          ∙ watched
          ∙ ready_roots_sent p p.roots m₁
          ∙ register_nodes_sent p.nodes (record m { plans = insert p.id p m.plans }))
]

-- No call but `Ingest` and `Complete` sends a result that is ok.
pub oks-apply : (c : Chan) (o : Call) (m : Manager) → oks c (apply o m).0.sent ≡ oks c m.sent
unfolding apply claim start fail abandon fire_lease dispose fire_deadline
oks-apply c (claims id peer lease now) m = ground arith
oks-apply c (starts id) m = ground arith
oks-apply c (fails id) m = ground arith
oks-apply c (abandons id) m = ground arith
oks-apply c (disposes id) m = elim (Option-cases (lookup id m.plans)) [
  | inl e ↦ ground (arith, e)
  | inr (p, e) ↦ ground (arith, e, dispose_nodes_quiet p.nodes m)
]
oks-apply c (lease_fires id) m = ground arith
oks-apply c (deadline_fires text p) m =
    let r : PlanResult = record { status = plan_timeout; text = text p.id } in
    ground (arith, dispose_nodes_quiet p.nodes m, oks-send c p.notify r (dispose_nodes p.nodes m))

-- The end of `Complete` sends one on the channel of the plan, if all its nodes are done then.
pub oks-finish_in_plan :
    (c : Chan) (key id output : Str) (p : TaskPlan) (m : Manager)
    → let m' = finish_in_plan key p id output m in
      oks c m'.sent
      ≡ oks c m.sent
        + (if all_done m'.heap p
            then adds c p.notify (record { status = plan_ok; text = output })
            else 0)
unfolding finish_in_plan
oks-finish_in_plan c key id output p m =
    let (m', nums) = cascade p.nodes (lookup_or [] id p.successors) (m, p.predecessor_nums) in
    let r : PlanResult = record { status = plan_ok; text = output } in
    let m'' : Manager = record m' {
      plans = insert key (record p { predecessor_nums = nums }) m'.plans;
    } in
    let quiet = (cascade_frame p.nodes (lookup_or [] id p.successors) m p.predecessor_nums).0 in
    rw ((finish_in_plan_lem key id output p m).0) (elim (Bool-cases (all_done m'.heap p)) [
      | inl e ↦ rw e (oks-send c p.notify r m'' ∙ ap (λ l. oks c l + adds c p.notify r) quiet)
      | inr e ↦ rw e (ap (oks c) quiet ∙ omega arith)
    ])
