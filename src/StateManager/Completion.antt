-- ===== src/StateManager/Completion.antt =====
-- internal/task_management_layer/task_state_manager/manager.go: `Complete` on the nodes of the plan,
-- the events and the channel.
use lucinda.Base.{
  ◌+◌, ◌≡◌, refl, ap, ◌∙◌, Str, str_eq, str_eq_refl, Map, lookup, lookup_or, insert, delete, List,
  [], ◌∷◌, ◌++◌, Option, none, some, ◌&&◌, ◌==◌, ltb, if◌then◌else◌, arith, Bool-cases, inl, inr, ℤ,
}
use lucinda.Task.{ready, running, done, TaskPlan, PlanResult, plan_ok, Addr, Chan}
use lucinda.StateManager.Core.{Error, Manager, state_of, set_state, all_done, send}
use lucinda.StateManager.Complete.{visit_successor, cascade, owning_plan, finish_in_plan, complete}
use lucinda.StateManager.Schedule.{waits_for, Shape, Scheduled}
use lucinda.StateManager.Cascade.{ready_events}
use lucinda.StateManager.Schedule.{node_released}
use lucinda.StateManager.Progress.{complete_running, finish_in_plan_lem}

send_published :
    (c : Option Chan) (r : PlanResult) (m : Manager) → (send c r m).published ≡ m.published
unfolding send
send_published none r m = refl
send_published (some c) r m = refl

finish_in_plan_published :
    (key id output : Str) (p : TaskPlan) (m : Manager)
    → (finish_in_plan key p id output m).published
      ≡ (cascade p.nodes (lookup_or [] id p.successors) (m, p.predecessor_nums)).0.published
unfolding finish_in_plan
finish_in_plan_published key id output p m =
    let (m', nums) = cascade p.nodes (lookup_or [] id p.successors) (m, p.predecessor_nums) in
    let r : PlanResult = record { status = plan_ok; text = output } in
    let m'' : Manager = record m' {
      plans = insert key (record p { predecessor_nums = nums }) m'.plans;
    } in
    elim (Bool-cases (all_done m''.heap p)) [
      | inl e ↦ rw e (send_published p.notify r m'')
      | inr e ↦ rw e
    ]

visit_frame :
    (ns : Map Addr) (t : Str) (m : Manager) (nums : Map ℤ)
    → ((visit_successor ns t (m, nums)).0.sent ≡ m.sent)
      × ((visit_successor ns t (m, nums)).0.nodes ≡ m.nodes)
unfolding visit_successor
visit_frame ns t m nums = ground arith

complete_done :
    (id output : Str) (a : Addr) (m : Manager)
    → lookup id m.nodes ≡ some a
    → state_of m a ≡ done
    → complete id output m ≡ (m, none)
unfolding complete
complete_done id output a m at d = rw (at, d, complete)

-- The cascade sends nothing and registers nothing.
pub cascade_frame :
    (ns : Map Addr) (ts : List Str) (m : Manager) (nums : Map ℤ)
    → ((cascade ns ts (m, nums)).0.sent ≡ m.sent) × ((cascade ns ts (m, nums)).0.nodes ≡ m.nodes)
unfolding cascade
cascade_frame ns [] m nums = (refl, refl)
cascade_frame ns (t ∷ ts) m nums =
    let (m', nums') = visit_successor ns t (m, nums) in
    ground (arith, visit_frame ns t m nums, cascade_frame ns ts m' nums')

finish_in_plan_frame :
    (key id output : Str) (p : TaskPlan) (m : Manager) (c : Chan)
    → p.notify ≡ some c
    → let m' = finish_in_plan key p id output m in
      (m'.sent ≡ (
        if all_done m'.heap p
        then m.sent ++ (c, record { status = plan_ok; text = output }) ∷ []
        else m.sent))
      × (m'.nodes ≡ m.nodes)
unfolding finish_in_plan send
finish_in_plan_frame key id output p m c n =
    let (m', nums) = cascade p.nodes (lookup_or [] id p.successors) (m, p.predecessor_nums) in
    let frame = cascade_frame p.nodes (lookup_or [] id p.successors) m p.predecessor_nums in
    elim (Bool-cases (all_done m'.heap p)) [
      | inl e ↦ rw (e, n) (rw e (ground (arith, frame)))
      | inr e ↦ rw e (rw e frame)
    ]

module _ (id output key : Str) (p : TaskPlan) (a : Addr) (m : Manager)
    (at : lookup id m.nodes ≡ some a) (is_running : state_of m a ≡ running)
    (owns : owning_plan id m.plans ≡ some (key, p)) (at' : lookup id p.nodes ≡ some a)
    (sh : Shape p) (v : Scheduled m.heap p) where
  -- `Complete` makes its running node Done, in a plan of the right shape that is under its
  -- schedule. Another node of the plan becomes Ready, and is announced as ready once, exactly if
  -- it waited for something before and waits for nothing now; else it keeps its state and is not
  -- announced.
  pub complete_releases :
      (s : Str) (b : Addr)
      → lookup s p.nodes ≡ some b
      → let m' = (complete id output m).0 in
        let freed = ltb 0 (waits_for m.heap p s) && (waits_for m'.heap p s == 0) in
        (state_of m' b ≡ (if str_eq s id then done else if freed then ready else state_of m b))
        × (ready_events b m'.published ≡ ready_events b m.published + (if freed then 1 else 0))
  complete_releases s b e =
      let m₀ : Manager = record m { claimed = delete id m.claimed } in
      let m₁ : Manager = set_state a done m₀ in
      rw (complete_running id output key p a m at is_running owns) (
        rw ((finish_in_plan_lem key id output p m₁).0) (
          rw (finish_in_plan_published key id output p m₁)
            (node_released p m₀ id a at' is_running sh v s b e)))

  -- Where the plan of its running node has the right shape, is under its schedule and has a
  -- channel, `Complete` sends one result on it, with its output, if the plan is now done, and else
  -- none. Repeated, it changes nothing and sends nothing.
  pub complete_notifies :
      (c : Chan) (again : Str)
      → p.notify ≡ some c
      → let m' = (complete id output m).0 in
        (m'.sent ≡ (
          if all_done m'.heap p
          then m.sent ++ (c, record { status = plan_ok; text = output }) ∷ []
          else m.sent))
        × (complete id again m' ≡ (m', none))
  unfolding set_state
  complete_notifies c again n =
      let m₁ : Manager = set_state a done (record m { claimed = delete id m.claimed }) in
      let frame = finish_in_plan_frame key id output p m₁ c n in
      let m' = (complete id output m).0 in
      (
        rw (complete_running id output key p a m at is_running owns) (frame.0),
        complete_done id again a m'
            (ap (λ (x : Manager × Option Error). lookup id x.0.nodes)
                (complete_running id output key p a m at is_running owns)
              ∙ ap (lookup id) frame.1
              ∙ at)
            ((complete_releases id a at').0 ∙ ground (arith, str_eq_refl id)),
      )
