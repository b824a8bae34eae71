-- ===== src/Witnesses/Data.antt =====
-- The example: a request with the ID "t-1", an answer with the two steps "a" and "b" of which the
-- second depends on the first, and the states of the manager up to the run of the first step.
use lucinda.Base.{str_eq, arith}
use lucinda.Base.{
  ◌≡◌, refl, ◌≢◌, Str, lit, Map, ℤ, pos, List, [], ◌∷◌, Option, none, some, Bool, true, false,
  lookup, String,
}
use lucinda.Task.{zero_spec, TaskPlan, unset, Heap, ready, running, claimed}
use lucinda.StateManager.{
  Manager, state_of, new_task_state_manager, ingest, claim, start, owning_plan,
}
use lucinda.StateManager.Schedule.{Scheduled}
use lucinda.StateManager.Start.{WellFormed, ingest-Scheduled}
use lucinda.StateManager.Calls.{Call, claims, starts, apply}
use lucinda.StateManager.Keeping.{apply-Scheduled}
use lucinda.Planner.Degrees.{total_deps}
use lucinda.Planner.{RawNode, Draft, draft_of, plan_of_draft}
use lucinda.Planner.Result.{Decomposes, parsed-WellFormed}

abbrev pub plan_id : Str
plan_id = lit "t-1"

abbrev pub me : Str
me = lit "me"

abbrev pub first_id : Str
first_id = lit "t-1-a"

abbrev pub second_id : Str
second_id = lit "t-1-b"

abbrev step : String → List Str → RawNode
step name deps = record {
  id = lit name;
  prompt = lit "look it up";
  tools = [];
  labels = [];
  deps = deps;
}

abbrev pub two_steps : List RawNode
two_steps = step "a" [] ∷ step "b" (lit "a" ∷ []) ∷ []

abbrev pub blank_heap : Heap
blank_heap a = record {
  id = [];
  spec = zero_spec;
  state = unset;
  claimed_by = [];
  expires_at = pos 0;
}

pub two_steps-Decomposes : Decomposes two_steps
unfolding str_eq total_deps
two_steps-Decomposes = record {
  distinct_ids = (refl, (refl, tt));
  no_reduce = refl;
  few_deps = omega arith;
  few_nodes = omega arith;
  last_id = lit "b";
  last_listed = refl;
  last_free = refl;
}

abbrev pub steps_draft : Draft
steps_draft = draft_of plan_id two_steps blank_heap 0

-- The plan, with the channel on which the user waits.
abbrev pub steps_plan : TaskPlan
steps_plan = record (plan_of_draft plan_id me (pos 0) steps_draft) { notify = some 7 }

pub steps_plan-WellFormed : WellFormed steps_plan
unfolding draft_of
steps_plan-WellFormed =
    let w = parsed-WellFormed plan_id two_steps blank_heap 0 two_steps-Decomposes me (pos 0) in
    record {
      shape = record {
        injective = w.shape.injective;
        distinct = w.shape.distinct;
        small = w.shape.small;
      };
      in_degrees = w.in_degrees;
      rooted = w.rooted;
    }

abbrev pub idle : Manager
idle = new_task_state_manager steps_draft.heap

abbrev pub ingested : Manager
ingested = (ingest steps_plan (pos 0) idle).0

abbrev pub first_claim : Call
first_claim = claims first_id me (pos 30) (pos 100)

abbrev pub after_claim : Manager
after_claim = (apply first_claim ingested).0

abbrev pub after_start : Manager
after_start = (apply (starts first_id) after_claim).0

pub ingested-Scheduled : Scheduled ingested.heap steps_plan
unfolding new_task_state_manager lookup
ingested-Scheduled = ingest-Scheduled steps_plan (pos 0) idle refl steps_plan-WellFormed

pub after_start-Scheduled : Scheduled after_start.heap steps_plan
after_start-Scheduled =
    apply-Scheduled (starts first_id) after_claim steps_plan tt
      (apply-Scheduled first_claim ingested steps_plan tt ingested-Scheduled)

pub ingested_node : lookup first_id ingested.nodes ≡ some 0
unfolding ingest draft_of new_task_state_manager lookup lucinda.Base.insert str_eq
ingested_node = refl

pub ingested_ready : state_of ingested 0 ≡ ready
unfolding ingest draft_of new_task_state_manager lookup lucinda.Base.insert str_eq
ingested_ready = refl

pub claim_node : lookup first_id after_claim.nodes ≡ some 0
unfolding ingest draft_of new_task_state_manager lookup apply claim lucinda.Base.insert str_eq
claim_node = refl

pub claim_claimed : state_of after_claim 0 ≡ claimed
unfolding ingest draft_of new_task_state_manager lookup apply claim lucinda.Base.insert str_eq
claim_claimed = refl

pub start_node : lookup first_id after_start.nodes ≡ some 0
unfolding ingest draft_of new_task_state_manager lookup apply start claim lucinda.Base.insert str_eq
start_node = refl

pub start_running : state_of after_start 0 ≡ running
unfolding ingest draft_of new_task_state_manager lookup apply start claim lucinda.Base.insert str_eq
start_running = refl

pub start_owner : owning_plan first_id after_start.plans ≡ some (plan_id, steps_plan)
unfolding ingest draft_of new_task_state_manager lookup apply owning_plan start claim
    lucinda.Base.insert str_eq
start_owner = refl

pub steps_node : lookup first_id steps_plan.nodes ≡ some 0
unfolding draft_of lookup lucinda.Base.insert str_eq
steps_node = refl

pub steps_second : lookup second_id steps_plan.nodes ≡ some 1
unfolding draft_of lookup lucinda.Base.insert str_eq
steps_second = refl

pub ingested_plan : lookup plan_id ingested.plans ≡ some steps_plan
unfolding ingest draft_of new_task_state_manager lookup lucinda.Base.insert str_eq
ingested_plan = refl
