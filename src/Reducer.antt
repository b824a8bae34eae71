-- ===== src/Reducer.antt =====
-- internal/task_workflow_layer/task_reducer/reducer.go: the reduce node combines the outputs of its
-- plan. The tracer and the state manager are the planner's `PlanWorld`; the provider is a parameter,
-- and `now` the clock in seconds.
pub mod Ids
pub mod Finish
use lucinda.Base.{false}
use lucinda.Base.{
  ℕ, suc, Str, Map, ℤ, pos, lit, List, [], ◌∷◌, ◌++◌, Option, none, some, length, take, leb, ltb,
  ltb_ℤ, add64, pos_part, ◌==◌, ◌+◌, ◌-◌, ◌/◌, if◌then◌else◌,
}
use lucinda.Task.{Task, TaskNode, is_reduce, Addr, Heap}
use lucinda.Messages.{Payload, node}
use lucinda.Tracer.{Tracer, set_output, get_local, get_assigned}
use lucinda.StateManager.{Manager, plan, claim, start, complete}
use lucinda.Planner.{Provider, zero_options, text_from_response, user_message}
use lucinda.Planner.{PlanWorld}

pub data Error : Type 0 where
  no_plan no_outputs : Str → Error
  no_provider no_model : Error
  not_completed : Error

unfoldable pub count_dashes : Str → ℕ
count_dashes [] = 0
count_dashes (c ∷ s) = let n = count_dashes s in if c == 45 then suc n else n

-- `strings.LastIndex(s, "-")`
unfoldable pub last_dash : Str → Option ℕ
last_dash [] = none
last_dash (c ∷ s) = elim (last_dash s) [
  | some i ↦ some (suc i)
  | none ↦ if c == 45 then some 0 else none
]

unfoldable pub parent_plan_id : Str → Str
unfolding count_dashes last_dash
parent_plan_id id =
    if leb 2 (count_dashes id) then elim (last_dash id) [ none ↦ id | some i ↦ take i id ] else id

-- The local task, or else the assigned one.
unfoldable pub traced : Str → Tracer → Option Task
unfolding get_local get_assigned
traced id t = elim (get_local id t) [ some task ↦ some task | none ↦ get_assigned id t ]

unfoldable pub note_of : Str → Option Task → List Str
note_of id none = []
note_of id (some task) = elim task.spec.output [
  | [] ↦ []
  | c ∷ s ↦ (((lit "[" ++ id) ++ lit "]: ") ++ (c ∷ s)) ∷ []
]

-- The loop over the plan's nodes.
unfoldable pub collect : Heap → Tracer → Map Addr → List Str
unfolding traced note_of
collect h t [] = []
collect h t ((k, a) ∷ rest) =
    let more = collect h t rest in
    if is_reduce (h a).spec.stage then more else note_of (h a).id (traced (h a).id t) ++ more

-- `strings.Join(outputs, "\n")`
unfoldable pub join_lines : List Str → Str
join_lines [] = []
join_lines (s ∷ []) = s
join_lines (s ∷ r ∷ rest) = (s ++ (10 ∷ [])) ++ join_lines (r ∷ rest)

-- Three characters to a token, but 256 characters at least.
unfoldable pub max_prompt_chars : Provider → ℤ
max_prompt_chars prov =
    let chars =
      add64 (add64 prov.max_context_tokens prov.max_context_tokens) prov.max_context_tokens in
    if ltb_ℤ chars (pos 256) then pos 256 else chars

-- The room of each output; the limit is 256 at least, so the difference is not negative.
unfoldable pub per_output : ℤ → ℕ → ℕ
per_output limit n = let share = (pos_part limit - 100) / n in if ltb share 50 then 50 else share

unfoldable pub truncate : ℕ → List Str → List Str
truncate room [] = []
truncate room (o ∷ rest) =
    (if ltb room (length o) then take room o ++ lit "..." else o) ∷ truncate room rest

-- `instructions` is the fixed text of the prompt before the notes.
unfoldable pub build_prompt : Str → Provider → List Str → Str
unfolding join_lines max_prompt_chars per_output truncate
build_prompt instructions prov outputs =
    let prompt = instructions ++ join_lines outputs in
    let limit = max_prompt_chars prov in
    if ltb_ℤ limit (pos (length prompt))
    then instructions ++ join_lines (truncate (per_output limit (length outputs)) outputs)
    else prompt

-- The model's answer, or the notes themselves where the call fails.
unfoldable pub combine : Str → Provider → Str → List Str → Str
unfolding build_prompt join_lines text_from_response user_message
combine instructions prov model outputs =
    elim (prov.generate (record {
      model = model;
      messages = user_message (build_prompt instructions prov outputs);
      stream = false;
      options = zero_options;
    })) [ none ↦ join_lines outputs | some message ↦ text_from_response message ]

-- The output is recorded, and the node goes through `Claim`, `Start` and `Complete`; only the error
-- of the last one is returned.
unfoldable pub finish : Str → Str → ℤ → PlanWorld → PlanWorld × Option Error
unfolding set_output claim start complete
finish id output now w =
    let m = (start id (claim id (lit "local") (pos 30) now w.manager).0).0 in
    let (m', err) = complete id output m in
    (
      record { tracer = (set_output id output w.tracer).0; manager = m' },
      elim err [ none ↦ none | some e ↦ some not_completed ],
    )

unfoldable pub reduce : Str → Option Provider → ℤ → Str → PlanWorld → PlanWorld × Option Error
unfolding plan parent_plan_id collect combine finish
reduce instructions provider now id w = elim (plan (parent_plan_id id) w.manager) [
  | none ↦ (w, some (no_plan (parent_plan_id id)))
  | some p ↦ elim (collect w.manager.heap w.tracer p.nodes) [
    | [] ↦ (w, some (no_outputs (parent_plan_id id)))
    | o ∷ os ↦ elim provider [
      | none ↦ (w, some no_provider)
      | some prov ↦ elim prov.models [
        | [] ↦ (w, some no_model)
        | model ∷ more ↦ finish id (combine instructions prov model (o ∷ os)) now w
      ]
    ]
  ]
]

-- The handler of `task.ready`.
unfoldable pub on_ready : Str → Option Provider → ℤ → Payload → PlanWorld → PlanWorld × Option Error
unfolding reduce
on_ready instructions provider now (node a) w =
    if is_reduce (w.manager.heap a).spec.stage
    then reduce instructions provider now (w.manager.heap a).id w
    else (w, none)
on_ready instructions provider now _ w = (w, none)
