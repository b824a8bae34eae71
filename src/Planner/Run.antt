-- ===== src/Planner/Run.antt =====
-- internal/task_workflow_layer/task_planner/planner.go: `plan`, from a raw task to an ingested plan.
use lucinda.Base.{Str, Map, ℤ, List, [], ◌∷◌, Option, none, some}
use lucinda.Task.{Task, TaskPlan, Stage, Addr, Heap}
use lucinda.Messages.{Payload}
use lucinda.Tracer.{Tracer, import_task}
use lucinda.StateManager.{Manager, Error, ingest}
use lucinda.Planner.Defs.{RawNode, Draft, parse, fallback_draft, plan_of_draft}
use lucinda.Planner.Chat.{Provider, generate}

-- What the planner asks for: a provider, the prompt that `buildDecomposition` formats around the
-- request, `json.Unmarshal`, the clock in nanoseconds, and the first free address of the heap.
pub record PlanEnv : Type 0 where
  pub provider : Option Provider
  pub decomposition : Str → Str
  pub unmarshal : Str → Option (List RawNode)
  pub now : ℤ
  pub next : Addr

pub record PlanWorld : Type 0 where
  pub tracer : Tracer
  pub manager : Manager

-- The draft of the answer, or the fallback where there is none.
unfoldable pub draft_plan : PlanEnv → Task → Heap → Draft
unfolding generate parse fallback_draft
draft_plan env task h = elim (generate env.provider (env.decomposition task.spec.prompt)) [
  | none ↦ fallback_draft task.meta.id task.spec.prompt h env.next
  | some answer ↦ parse env.unmarshal task.meta.id answer h env.next
]

-- The channel of the wrapper's plan, where the task has one.
unfoldable pub with_notify : Task → TaskPlan → TaskPlan
with_notify task p = elim task.task_plan [ none ↦ p | some channel ↦ record p { notify = channel } ]

-- The loop that registers the nodes with the tracer; its errors are dropped.
unfoldable pub import_nodes : Heap → Str → Map Addr → Tracer → Tracer
import_nodes h owner [] t = t
import_nodes h owner ((k, a) ∷ rest) t =
    import_nodes h owner rest
      (import_task
        (record {
          meta = record { id = (h a).id; type = Stage.unstaged; owner = owner };
          spec = (h a).spec;
          task_plan = none;
        })
        t).0

unfoldable pub plan_of_task : PlanEnv → Task → Heap → TaskPlan
unfolding draft_plan with_notify
plan_of_task env task h =
    with_notify task (plan_of_draft task.meta.id task.meta.owner env.now (draft_plan env task h))

unfoldable pub run_plan : PlanEnv → Task → PlanWorld → PlanWorld × Option Error
unfolding plan_of_task import_nodes
run_plan env task w =
    let h = (draft_plan env task w.manager.heap).heap in
    let p = plan_of_task env task w.manager.heap in
    let (m, err) = ingest p env.now (record manager { heap = h }) in
    (record { tracer = import_nodes h p.owner p.nodes w.tracer; manager = m }, err)
  where
    open w use {manager}

-- The handler of `task.preplanned`.
unfoldable pub on_preplanned : PlanEnv → Payload → PlanWorld → PlanWorld × Option Error
unfolding run_plan
on_preplanned env (Payload.task task) w = run_plan env task w
on_preplanned env _ w = (w, none)
