-- ===== src/Witnesses/Runs.antt =====
-- The theorems on runs of the state manager, at the run of the example up to the end of its first
-- step.
use lucinda.Base.{
  false, ◌+◌, ◌≤◌, Bool-cases, str_eq_iff, inl, inr, ◌≡◌, refl, ◌<◌, Str, lit, lookup, lookup_or,
  pos, none, some, true, arith, str_eq,
}
use lucinda.Task.{done, TaskPlan, Addr}
use lucinda.StateManager.{
  all_done, fire_deadline, Manager, state_of, new_task_state_manager, ingest, complete,
}
use lucinda.StateManager.Schedule.{Scheduled}
use lucinda.StateManager.Calls.{starts, apply}
use lucinda.StateManager.Books.{Fresh}
use lucinda.StateManager.Traces.{
  Reach, begins, goes_on, ingests, completes, calls, Reach-Scheduled, runs_after_predecessors,
}
use lucinda.StateManager.Reports.{oks}
use lucinda.StateManager.Reporting.{ended, Alone}
use lucinda.StateManager.OneResult.{Later, at_once, next, Stays, one_result}
use lucinda.StateManager.TimedOut.{timed_out}
use lucinda.Planner.{draft_of}
use lucinda.Witnesses.Data.{
  plan_id, first_id, second_id, steps_plan, steps_plan-WellFormed, steps_draft, idle, ingested,
  after_claim, first_claim, after_start,
}

pub steps_plan-Fresh : Fresh steps_plan idle
unfolding lookup new_task_state_manager draft_of lucinda.Base.insert str_eq
steps_plan-Fresh = record {
  new_id = refl;
  names = (refl, (refl, (refl, tt)));
  named = (refl, (refl, (refl, tt)));
  new_names = λ s b e. refl;
  new_nodes = λ s t b e f. cc;
}

pub ingested-Reach : Reach ingested
ingested-Reach =
    goes_on (begins steps_draft.heap)
      (ingests steps_plan (pos 0) idle steps_plan-WellFormed steps_plan-Fresh)

after_start-Reach : Reach after_start
after_start-Reach =
    goes_on (goes_on ingested-Reach (calls first_claim ingested tt))
      (calls (starts first_id) after_claim tt)

abbrev after_first : Manager
after_first = (complete first_id (lit "found") after_start).0

after_first-Reach : Reach after_first
after_first-Reach = goes_on after_start-Reach (completes first_id (lit "found") after_start)

-- The plan as it stands in the books then.
abbrev later_plan : TaskPlan
later_plan = elim (lookup plan_id after_first.plans) [ none ↦ steps_plan | some p ↦ p ]

Reach-Scheduled_example : Scheduled after_first.heap later_plan
unfolding lookup complete apply lucinda.StateManager.start lucinda.StateManager.claim ingest
    new_task_state_manager draft_of lucinda.Base.insert str_eq lucinda.Base.sub64 lucinda.Base.add64
Reach-Scheduled_example = Reach-Scheduled plan_id later_plan after_first-Reach refl

runs_after_predecessors_example :
    (a : Addr) × (lookup first_id later_plan.nodes ≡ some a) × (state_of after_first a ≡ done)
unfolding lookup complete apply lucinda.StateManager.start lucinda.StateManager.claim ingest
    new_task_state_manager draft_of lucinda.Base.insert str_eq lucinda.Base.sub64 lucinda.Base.add64
    lucinda.StateManager.Graph.occurrences
runs_after_predecessors_example =
    runs_after_predecessors plan_id second_id first_id later_plan 1 after_first-Reach refl refl refl
      (omega arith)

-- From the ingested plan to the end of its first step.
abbrev to_first : Later ingested after_first
to_first =
    next
      (next (next at_once (calls first_claim ingested tt)) (calls (starts first_id) after_claim tt))
      (completes first_id (lit "found") after_start)

after_first-Alone : Alone plan_id 7 after_first
unfolding lookup complete apply lucinda.StateManager.start lucinda.StateManager.claim ingest
    new_task_state_manager draft_of lucinda.Base.insert str_eq lucinda.Base.sub64 lucinda.Base.add64
after_first-Alone j q e told = elim (Bool-cases (str_eq plan_id j)) [
  | inl hit ↦ (str_eq_iff plan_id j).0 hit
  | inr miss ↦ absurd (ground (arith, miss, e))
]

one_result_example :
    Stays plan_id steps_plan after_first
    × (oks 7 after_first.sent + ended ingested.heap steps_plan
        ≡ oks 7 ingested.sent + ended after_first.heap steps_plan)
    × (ended ingested.heap steps_plan ≤ ended after_first.heap steps_plan)
unfolding lookup ingest new_task_state_manager lucinda.Base.insert str_eq draft_of
one_result_example =
    one_result plan_id steps_plan 7 ingested-Reach to_first refl refl (refl, (refl, (refl, tt)))
      after_first-Alone

-- The deadline passes while the first step runs, whose output comes too late.
abbrev overdue : Manager
overdue = fire_deadline (λ id. id) steps_plan after_start

abbrev too_late : Manager
too_late = (complete first_id (lit "found") overdue).0

too_late-Alone : Alone plan_id 7 too_late
unfolding lookup complete fire_deadline apply lucinda.StateManager.start lucinda.StateManager.claim
    ingest new_task_state_manager draft_of lucinda.Base.insert str_eq lucinda.Base.sub64
    lucinda.Base.add64
too_late-Alone j q e told = elim (Bool-cases (str_eq plan_id j)) [
  | inl hit ↦ (str_eq_iff plan_id j).0 hit
  | inr miss ↦ absurd (ground (arith, miss, e))
]

timed_out_example :
    (all_done too_late.heap steps_plan ≡ false) × (oks 7 too_late.sent ≡ oks 7 after_start.sent)
unfolding lookup apply lucinda.StateManager.start lucinda.StateManager.claim ingest all_done
    new_task_state_manager lucinda.Base.insert str_eq draft_of
timed_out_example =
    timed_out (λ id. id) plan_id steps_plan 7 after_start-Reach refl refl (refl, (refl, (refl, tt)))
      refl (next at_once (completes first_id (lit "found") overdue)) too_late-Alone
