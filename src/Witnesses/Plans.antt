-- ===== src/Witnesses/Plans.antt =====
-- The theorems on whole plans, at the example.
use lucinda.Base.{
  ◌≡◌, refl, ℕ, suc, ◌<◌, ◌≢◌, Str, lit, Map, lookup, ℤ, pos, List, [], ◌∷◌, ◌++◌, ◌+◌, Option,
  none, some, Bool, true, false, if◌then◌else◌, ◌==◌, ◌&&◌, ltb, str_eq, str_eq_iff, arith, inl,
  inr, is_some,
}
use lucinda.Task.{ready, done, plan_ok, Task, Stage, zero_spec}
use lucinda.Tracer.{new_task_tracer, get_local}
use lucinda.StateManager.{Manager, state_of, complete, all_done, new_task_state_manager}
use lucinda.StateManager.Cascade.{ready_events}
use lucinda.StateManager.Schedule.{Scheduled, waits_for}
use lucinda.StateManager.Progress.{}
use lucinda.StateManager.Completion.{complete_releases, complete_notifies}
use lucinda.Planner.{
  PlanEnv, PlanWorld, run_plan, plan_of_task, draft_plan, ContentType, ChatMessage, generate,
}
use lucinda.Planner.Pipeline.{run_plan-Scheduled, run_plan_traced}
use lucinda.Witnesses.Data.{
  plan_id, first_id, second_id, me, two_steps, two_steps-Decomposes, blank_heap, steps_plan,
  steps_plan-WellFormed, after_start, after_start-Scheduled, start_node, start_running, start_owner,
  steps_node, steps_second,
}

abbrev text : Str
text = lit "found"

abbrev completed : Manager
completed = (complete first_id text after_start).0

complete_releases_example :
    let freed =
      ltb 0 (waits_for after_start.heap steps_plan second_id)
      && (waits_for completed.heap steps_plan second_id == 0) in
    (state_of completed 1 ≡ (
      if str_eq second_id first_id then done else if freed then ready else state_of after_start 1))
    × (ready_events 1 completed.published
        ≡ ready_events 1 after_start.published + (if freed then 1 else 0))
complete_releases_example =
    complete_releases first_id text plan_id steps_plan 0 after_start start_node start_running
      start_owner steps_node steps_plan-WellFormed.shape after_start-Scheduled second_id 1
      steps_second

complete_notifies_example :
    (completed.sent ≡ (
      if all_done completed.heap steps_plan
      then after_start.sent ++ (7, record { status = plan_ok; text = text }) ∷ []
      else after_start.sent))
    × (complete first_id (lit "again") completed ≡ (completed, none))
complete_notifies_example =
    complete_notifies first_id text plan_id steps_plan 0 after_start start_node start_running
      start_owner steps_node steps_plan-WellFormed.shape after_start-Scheduled 7 (lit "again") refl

-- The planner

abbrev reply : ChatMessage
reply = record {
  role = lit "assistant";
  content =
      record { type = ContentType.content_text; text = lit "two steps {}"; image_url = [] } ∷ [];
}

abbrev env : PlanEnv
env = record {
  provider = some (record {
    models = lit "llama" ∷ [];
    max_context_tokens = pos 4096;
    generate = λ _. some reply;
  });
  decomposition = λ request. request;
  unmarshal = λ _. some two_steps;
  now = pos 0;
  next = 0;
}

abbrev task : Task
task = record {
  meta = record { id = plan_id; type = Stage.planning; owner = me };
  spec = record zero_spec { prompt = lit "why is the sky blue" };
  task_plan = some (some 7);
}

abbrev world : PlanWorld
world = record { tracer = new_task_tracer; manager = new_task_state_manager blank_heap }

run_plan-Scheduled_example :
    Scheduled (run_plan env task world).0.manager.heap (plan_of_task env task world.manager.heap)
unfolding generate new_task_state_manager lookup
run_plan-Scheduled_example =
    run_plan-Scheduled env task world (lit "two steps {}") two_steps refl refl two_steps-Decomposes
      refl

run_plan_traced_example :
    is_some (
      get_local
        ((draft_plan env task world.manager.heap).heap 1).id
        (run_plan env task world).0.tracer)
    ≡ true
unfolding plan_of_task lookup lucinda.Base.insert str_eq
run_plan_traced_example = run_plan_traced env task world second_id 1 refl
