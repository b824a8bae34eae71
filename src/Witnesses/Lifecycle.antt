-- ===== src/Witnesses/Lifecycle.antt =====
-- The theorems on single calls, at the example's states.
use lucinda.Base.{All}
use lucinda.Base.{
  ◌≡◌, refl, Str, lit, lookup, ℤ, pos, add64, List, [], ◌∷◌, ◌++◌, Option, none, some, Bool, true,
  false, if◌then◌else◌, ◌==◌, str_eq, str_eq_refl, arith, ◌↔◌,
}
use lucinda.Task.{claimed, ready, Addr, plan_timeout, PlanResult}
use lucinda.StateManager.{
  Manager, fail, complete, state_of, claim, abandon, fire_lease, already_claimed, ingest, dispose,
  fire_deadline, new_task_state_manager, all_done, is_done,
}
use lucinda.StateManager.Leases.{claim_iff, stale_watchdog}
use lucinda.StateManager.Holding.{Meanwhile, since, called, completed, claim_exclusive}
use lucinda.StateManager.Calls.{claims, fails, starts, apply, Moves, is_live, apply-Moves}
use lucinda.StateManager.Endings.{settled, dispose_settles, fire_deadline_once}
use lucinda.Planner.{draft_of}
use lucinda.Witnesses.Data.{
  plan_id, first_id, second_id, me, steps_plan, ingested, ingested_node, ingested_ready,
  ingested_plan, after_claim, after_start, steps_second,
}

abbrev other : Str
other = lit "other"

claim_iff_example :
    ((claim first_id me (pos 30) (pos 100) ingested).1 ≡ none)
    ↔ ((a : Addr) × (lookup first_id ingested.nodes ≡ some a) × (state_of ingested a ≡ ready))
claim_iff_example = claim_iff first_id me (pos 30) (pos 100) ingested

-- Between the two claims, calls on the other node come in.
abbrev kept : Manager
kept =
    (complete second_id []
      (apply (fails second_id)
        (apply (claims second_id other (pos 30) (pos 101))
          (claim first_id me (pos 30) (pos 100) ingested).0).0).0).0

kept-Meanwhile : Meanwhile 0 (claim first_id me (pos 30) (pos 100) ingested).0 kept
unfolding apply claim fail complete ingest draft_of new_task_state_manager lookup
    lucinda.Base.insert str_eq
kept-Meanwhile =
    completed second_id []
      (called (fails second_id) (called (claims second_id other (pos 30) (pos 101)) since tt refl)
        tt refl)
      refl

claim_exclusive_example :
    claim first_id other (pos 30) (pos 103) kept ≡ (kept, some (already_claimed first_id me))
claim_exclusive_example =
    claim_exclusive first_id me other (pos 30) (pos 100) (pos 30) (pos 103) 0 ingested ingested_node
      ingested_ready kept-Meanwhile

stale_watchdog_example :
    let m₁ = (claim first_id me (pos 30) (pos 100) ingested).0 in
    let m₂ = (claim first_id other (pos 30) (pos 110) (abandon first_id m₁).0).0 in
    let m₃ = fire_lease first_id m₂ in
    (state_of m₂ 0 ≡ claimed)
    × (lookup first_id m₂.claimed ≡ some other)
    × (state_of m₃ 0 ≡ ready)
    × (lookup first_id m₃.claimed ≡ none)
stale_watchdog_example =
    stale_watchdog first_id me other (pos 30) (pos 100) (pos 30) (pos 110) ingested 0 ingested_node
      ingested_ready

apply-Moves_example :
    Moves
      (starts first_id)
      (state_of after_claim 0)
      (state_of (apply (starts first_id) after_claim).0 0)
apply-Moves_example = apply-Moves (starts first_id) after_claim 0

dispose_settles_example :
    let m' = (dispose plan_id ingested).0 in
    ((dispose plan_id ingested).1 ≡ none)
    × (is_live (state_of m' 1) ≡ false)
    × (is_done (state_of m' 1) ≡ is_done (state_of ingested 1))
    × (m'.published ≡ ingested.published)
    × (m'.sent ≡ ingested.sent)
dispose_settles_example =
    dispose_settles plan_id steps_plan ingested second_id 1 ingested_plan steps_second

abbrev text : Str → Str
text id = lit "deadline exceeded: " ++ id

fire_deadline_once_example :
    let m' = fire_deadline text steps_plan after_start in
    let timeout : PlanResult = record { status = plan_timeout; text = text steps_plan.id } in
    (m'.sent ≡ (
      if all_done after_start.heap steps_plan
      then after_start.sent
      else after_start.sent ++ (7, timeout) ∷ []))
    × (state_of m' 1 ≡ (
        if all_done after_start.heap steps_plan
        then state_of after_start 1
        else settled (state_of after_start 1)))
    × (all_done m'.heap steps_plan ≡ all_done after_start.heap steps_plan)
fire_deadline_once_example =
    fire_deadline_once text steps_plan 7 after_start second_id 1 refl steps_second
