-- ===== src/Executor.antt =====
-- internal/task_workflow_layer/task_executor/executor.go: the assigned task goes to a provider, and
-- its output to the bus or back to the node that owns the plan. The state manager is never nil, as
-- cmd/pc/main.go gives one to `NewTaskExecutor`. The goroutine that the handler starts for each
-- assignment is one step here.
pub mod Local
use lucinda.Base.{
  Str, List, [], ◌∷◌, Option, none, some, Bool, false, any, str_eq, ◌||◌, if◌then◌else◌,
}
use lucinda.Task.{Task, Stage}
use lucinda.Messages.{
  EventType, task_assigned, task_done, TaskAssignMsg, TaskResultMsg, Payload, assign, result,
  new_node_message,
}
use lucinda.Tracer.{assign_task, remove}
use lucinda.StateManager.{start}
use lucinda.Planner.{Provider, zero_options, warm_temperature, user_message, text_from_response}
use lucinda.Board.{World, output, publishes, sends, task_board_protocol}

pub data Error : Type 0 where
  no_provider_available generate_failed : Error

-- The first provider that has the model.
unfoldable pub supporting : Str → List Provider → Option Provider
supporting model [] = none
supporting model (p ∷ rest) = if any (str_eq model) p.models then some p else supporting model rest

-- Where no provider has it, the first one of all.
unfoldable pub choose_provider : Str → List Provider → Option Provider
unfolding supporting
choose_provider model providers = elim (supporting model providers) [
  | some p ↦ some p
  | none ↦ elim providers [ [] ↦ none | p ∷ rest ↦ some p ]
]

unfoldable pub is_local : Str → TaskAssignMsg → Bool
is_local self msg = str_eq msg.origin_node_id [] || str_eq msg.origin_node_id self

unfoldable pub choose_model : Str → Provider → Str
choose_model [] p = elim p.models [ [] ↦ [] | m ∷ rest ↦ m ]
choose_model (c ∷ s) p = c ∷ s

-- The call of the provider; `none` where it fails.
unfoldable pub answer : Provider → TaskAssignMsg → Option Str
unfolding choose_model user_message text_from_response
answer p msg =
    elim (p.generate (record {
      model = choose_model msg.spec.model p;
      messages = user_message msg.prompt;
      stream = false;
      options = record zero_options {
        temperature = warm_temperature;
        max_tokens = msg.spec.budget_tokens;
      };
    })) [ none ↦ none | some message ↦ some (text_from_response message) ]

-- `tt.Assigned`, whose error is dropped.
unfoldable pub track : TaskAssignMsg → World → World
track msg w = record w {
  tracer =
      (assign_task
        (record {
          meta = record { id = msg.node_id; type = Stage.unstaged; owner = [] };
          spec = msg.spec;
          task_plan = none;
        })
        w.tracer).0;
}

unfoldable pub untrack : Str → World → World
untrack id w = record w { tracer = (remove id w.tracer).0 }

-- `sm.Start` on a local task; its error is dropped.
unfoldable pub begin : Str → TaskAssignMsg → World → World
unfolding is_local
begin self msg w =
    if is_local self msg then record w { manager = (start msg.node_id w.manager).0 } else w

unfoldable pub deliver : Str → TaskAssignMsg → Str → World → World
unfolding is_local output new_node_message
deliver self msg text w =
    let r : Payload = result (record { node_id = msg.node_id; output = text }) in
    if is_local self msg
    then output (publishes task_done r) w
    else output
        (sends msg.origin_node_id
          (new_node_message task_board_protocol task_done self msg.origin_node_id r))
        w

unfoldable pub execute : Str → List Provider → TaskAssignMsg → World → World × Option Error
unfolding track choose_provider untrack begin answer deliver
execute self providers msg w = elim (choose_provider msg.spec.model providers) [
  | none ↦ (untrack msg.node_id (track msg w), some no_provider_available)
  | some p ↦ elim (answer p msg) [
    | none ↦ (untrack msg.node_id (begin self msg (track msg w)), some generate_failed)
    | some text ↦ (deliver self msg text (begin self msg (track msg w)), none)
  ]
]

-- The handler of `task.assigned`, with the goroutine that it starts, whose error no one reads.
unfoldable pub on_assigned : Str → List Provider → Payload → World → World
unfolding execute
on_assigned self providers (assign msg) w = (execute self providers msg w).0
on_assigned self providers _ w = w
