-- ===== src/StateManager/Progress.antt =====
-- internal/task_management_layer/task_state_manager/manager.go: `Complete` against the schedule of
-- the plan.
use lucinda.Base.{
  ◌≡◌, refl, ◌∙◌, Str, str_eq_refl, Map, lookup, lookup_or, insert, delete, lookup-insert, [],
  Option, none, some, arith, Bool-cases, inl, inr, ℤ,
}
use lucinda.Task.{running, done, TaskPlan, PlanResult, plan_ok, Addr, Chan}
use lucinda.StateManager.Core.{Manager, state_of, set_state, all_done, send}
use lucinda.StateManager.Complete.{cascade, owning_plan, finish_in_plan, complete}
use lucinda.StateManager.Schedule.{Shape, Scheduled, cascade-Scheduled}

pub send_heap : (c : Option Chan) (r : PlanResult) (m : Manager) → (send c r m).heap ≡ m.heap
unfolding send
send_heap none r m = refl
send_heap (some c) r m = refl

send_plans : (c : Option Chan) (r : PlanResult) (m : Manager) → (send c r m).plans ≡ m.plans
unfolding send
send_plans none r m = refl
send_plans (some c) r m = refl

lookup-insert_self {ℓ} :
    {V : Type ℓ} (k : Str) (v : V) (m : Map V) → lookup k (insert k v m) ≡ some v
lookup-insert_self k v m = lookup-insert k k v m ∙ ground (arith, str_eq_refl k)

-- A plan that is finished in: the results that are sent change neither heap nor plans.
pub finish_in_plan_lem :
    (key id output : Str) (p : TaskPlan) (m : Manager)
    → let (m', nums) = cascade p.nodes (lookup_or [] id p.successors) (m, p.predecessor_nums) in
      ((finish_in_plan key p id output m).heap ≡ m'.heap)
      × (lookup key (finish_in_plan key p id output m).plans
          ≡ some (record p { predecessor_nums = nums }))
unfolding finish_in_plan
finish_in_plan_lem key id output p m =
    let (m', nums) = cascade p.nodes (lookup_or [] id p.successors) (m, p.predecessor_nums) in
    let r : PlanResult = record { status = plan_ok; text = output } in
    let p' : TaskPlan = record p { predecessor_nums = nums } in
    let m'' : Manager = record m' { plans = insert key p' m'.plans } in
    let kept = lookup-insert_self key p' m'.plans in
    elim (Bool-cases (all_done m''.heap p)) [
      | inl e ↦ rw e (send_heap p.notify r m'', rw (send_plans p.notify r m'') kept)
      | inr e ↦ rw e (refl, kept)
    ]

-- What `Complete` comes to on a running node of a plan.
pub complete_running :
    (id output key : Str) (p : TaskPlan) (a : Addr) (m : Manager)
    → lookup id m.nodes ≡ some a
    → state_of m a ≡ running
    → owning_plan id m.plans ≡ some (key, p)
    → complete id output m ≡ (
      finish_in_plan key p id output
          (set_state a done (record m { claimed = delete id m.claimed })),
      none,
    )
unfolding complete set_state
complete_running id output key p a m at r owns = rw (at, r, owns, complete)

-- `Complete` of a running node keeps the schedule of the plan that has the node, if the plan has
-- the shape of one and is under its schedule: its counts go on being the numbers of open edges,
-- every node that is released to run has all its predecessors done, and every node whose
-- predecessors are all done has been released.
pub complete-Scheduled :
    (id output key : Str) (p : TaskPlan) (a : Addr) (m : Manager)
    → lookup id m.nodes ≡ some a
    → state_of m a ≡ running
    → owning_plan id m.plans ≡ some (key, p)
    → lookup id p.nodes ≡ some a
    → Shape p
    → Scheduled m.heap p
    → (nums : Map ℤ) × (lookup key (complete id output m).0.plans
        ≡ some (record p { predecessor_nums = nums }))
      × Scheduled (complete id output m).0.heap (record p { predecessor_nums = nums })
complete-Scheduled id output key p a m at r owns at' sh v =
    let m' : Manager = record m { claimed = delete id m.claimed } in
    let m'' : Manager = set_state a done m' in
    let (m''', nums) = cascade p.nodes (lookup_or [] id p.successors) (m'', p.predecessor_nums) in
    let (same_heap, kept) = finish_in_plan_lem key id output p m'' in
    rw (complete_running id output key p a m at r owns)
      (nums, kept, rw same_heap (cascade-Scheduled p m' id a at' r sh v))
