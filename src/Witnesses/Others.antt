-- ===== src/Witnesses/Others.antt =====
-- The theorems on the tracer, the JSON text, the module manager, the executor and the reducer.
use lucinda.Base.{
  ◌≡◌, ◌↔◌, refl, Str, str_eq, lit, Map, lookup, ℤ, pos, List, [], ◌∷◌, ◌++◌, Option, none, some,
  Bool, true, false, not, ◌&&◌, ◌||◌, if◌then◌else◌, is_some, arith,
}
use lucinda.Task.{zero_spec, Task, Stage, running, ready}
use lucinda.Messages.{TaskAssignMsg, task_done, result}
use lucinda.Tracer.{Tracer, new_task_tracer}
use lucinda.StateManager.{state_of, complete, set_state, ingest, new_task_state_manager, plan}
use lucinda.Planner.{
  Provider, ContentType, ChatMessage, PlanWorld, extract_json, reduce_id, draft_of,
}
use lucinda.Planner.Json.{nothing, group, extract_json_embedded}
use lucinda.Board.{World, new_task_board, publishes}
use lucinda.Executor.{choose_provider, answer, is_local, execute}
use lucinda.Executor.Local.{execute_local}
use lucinda.Reducer.{parent_plan_id, collect, reduce}
use lucinda.Reducer.Finish.{reduce_ready}
use lucinda.Witnesses.Data.{
  plan_id, first_id, second_id, me, steps_plan, ingested, after_claim, claim_node, claim_claimed,
}

-- The tracer

abbrev task : Str → Task
task id = record {
  meta = record { id = id; type = Stage.unstaged; owner = me };
  spec = record zero_spec { output = lit "note" };
  task_plan = none;
}

abbrev store : Tracer
store = record {
  local = (first_id, task first_id) ∷ [];
  assigned = (second_id, task second_id) ∷ [];
}

-- The JSON text

extract_json_embedded_example :
    extract_json (lit "Here: " ++ (b'{' ∷ ((b'{' ∷ ([] ++ (b'}' ∷ []))) ++ (b'}' ∷ lit " ok}"))))
    ≡ b'{' ∷ ((b'{' ∷ ([] ++ (b'}' ∷ []))) ++ (b'}' ∷ []))
extract_json_embedded_example =
    extract_json_embedded (lit "Here: ") (lit " ok}") refl (group nothing nothing)

-- The executor

abbrev message : ChatMessage
message = record {
  role = lit "assistant";
  content = record { type = ContentType.content_text; text = lit "found"; image_url = [] } ∷ [];
}

abbrev provider : Provider
provider = record {
  models = lit "llama" ∷ [];
  max_context_tokens = pos 4096;
  generate = λ _. some message;
}

abbrev assignment : TaskAssignMsg
assignment = record {
  node_id = first_id;
  origin_node_id = me;
  ttl = pos 0;
  prompt = lit "look it up";
  spec = zero_spec;
}

abbrev claimed_world : World
claimed_world = record {
  board = new_task_board;
  tracer = new_task_tracer;
  manager = after_claim;
  outputs = [];
}

execute_local_example :
    let (w', err) = execute me (provider ∷ []) assignment claimed_world in
    (err ≡ none)
    × (state_of w'.manager 0 ≡ running)
    × (w'.outputs
        ≡ []
          ++ publishes task_done (result (record { node_id = first_id; output = lit "found" }))
            ∷ [])
    × ((complete first_id (lit "found") w'.manager).1 ≡ none)
unfolding is_local choose_provider answer str_eq
execute_local_example =
    execute_local me (lit "found") (provider ∷ []) provider assignment claimed_world 0 refl refl
      refl claim_node claim_claimed

-- The reducer

-- The example's plan with its reduce node released and the note of the first step traced.
abbrev reduce_world : PlanWorld
reduce_world = record { tracer = store; manager = set_state 2 ready ingested }

abbrev note : Str
note = lit "[t-1-a]: note"

abbrev second_note : Str
second_note = lit "[t-1-b]: note"

reduce_ready_example :
    (reduce (lit "Combine: ") (some provider) (pos 100) (reduce_id plan_id) reduce_world).1 ≡ none
unfolding set_state ingest draft_of new_task_state_manager lookup plan parent_plan_id collect
    lucinda.Base.insert str_eq
reduce_ready_example =
    reduce_ready (lit "Combine: ") (reduce_id plan_id) provider (pos 100) reduce_world 2 steps_plan
      note (lit "llama") (second_note ∷ []) [] refl refl refl refl refl
