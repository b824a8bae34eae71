-- ===== src/Reducer/Finish.antt =====
-- internal/task_workflow_layer/task_reducer/reducer.go: how `reduce` ends on a reduce node.
use lucinda.Base.{◌≡◌, refl, Str, ℤ, pos, lit, lookup, List, ◌∷◌, none, some}
use lucinda.Task.{ready, TaskPlan, Addr}
use lucinda.StateManager.{state_of, plan}
use lucinda.StateManager.Leases.{life_of_node}
use lucinda.Planner.{Provider}
use lucinda.Planner.{PlanWorld}
use lucinda.Reducer.{parent_plan_id, collect, combine, finish, reduce}

finish_ready :
    (id output : Str) (now : ℤ) (w : PlanWorld) (a : Addr)
    → lookup id w.manager.nodes ≡ some a
    → state_of w.manager a ≡ ready
    → (finish id output now w).1 ≡ none
unfolding finish
finish_ready id output now w a e r =
    let (s₁, s₂, held, s₃, s₄, fin) =
      life_of_node id (lit "local") output (pos 30) now w.manager a e r in
    rw (fin, finish) refl

-- On a registered reduce node that is Ready, whose plan is known and has an output to combine,
-- `reduce` returns no error as long as there is a provider with a model, also where the provider's
-- answer fails.
pub reduce_ready :
    (instructions id : Str) (prov : Provider) (now : ℤ) (w : PlanWorld) (a : Addr) (p : TaskPlan)
    (o model : Str) (os models : List Str)
    → lookup id w.manager.nodes ≡ some a
    → state_of w.manager a ≡ ready
    → plan (parent_plan_id id) w.manager ≡ some p
    → collect w.manager.heap w.tracer p.nodes ≡ o ∷ os
    → prov.models ≡ model ∷ models
    → (reduce instructions (some prov) now id w).1 ≡ none
unfolding reduce
reduce_ready instructions id prov now w a p o model os models e r known some_output has_model =
    rw (known, some_output, has_model, reduce)
      (finish_ready id (combine instructions prov model (o ∷ os)) now w a e r)
