-- ===== src/Planner/Pipeline.antt =====
-- internal/task_workflow_layer/task_planner/planner.go: `plan` as a whole, from a raw task on.
use lucinda.Base.{
  ◌≡◌, refl, sym, subst, Str, str_eq, str_eq_refl, Map, lookup, lookup-insert, List, [], ◌∷◌, none,
  some, is_some, true, Bool-cases, Option-cases, inl, inr, arith,
}
use lucinda.Task.{TaskPlan, Addr, Heap}
use lucinda.StateManager.Start.{WellFormed}
use lucinda.Planner.Defs.{RawNode, draft_of, plan_of_draft}
use lucinda.Task.{Task}
use lucinda.Tracer.{Tracer, get_local, import_task}
use lucinda.StateManager.Schedule.{Scheduled}
use lucinda.StateManager.Start.{ingest-Scheduled}
use lucinda.Planner.Defs.{parse, extract_json}
use lucinda.Planner.Chat.{generate}
use lucinda.Planner.Run.{
  PlanEnv, PlanWorld, draft_plan, with_notify, import_nodes, plan_of_task, run_plan,
}
use lucinda.Planner.Result.{Decomposes, parsed-WellFormed}

notify-WellFormed : (p : TaskPlan) (task : Task) → WellFormed p → WellFormed (with_notify task p)
unfolding with_notify
notify-WellFormed p task w = elim (Option-cases task.task_plan) [
  | inl e ↦ rw e w
  | inr (c, e) ↦ rw e (record {
    shape = record {
      injective = w.shape.injective;
      distinct = w.shape.distinct;
      small = w.shape.small;
    };
    in_degrees = w.in_degrees;
    rooted = w.rooted;
  })
]

with_notify_id : (p : TaskPlan) (task : Task) → (with_notify task p).id ≡ p.id
unfolding with_notify
with_notify_id p task = ground arith

draft_of_answer :
    (env : PlanEnv) (task : Task) (h : Heap) (answer : Str) (raw : List RawNode)
    → generate env.provider (env.decomposition task.spec.prompt) ≡ some answer
    → env.unmarshal (extract_json answer) ≡ some raw
    → draft_plan env task h ≡ draft_of task.meta.id raw h env.next
unfolding draft_plan parse
draft_of_answer env task h answer raw g u = rw (g, draft_plan) (rw (u, parse) refl)

-- Where the model's answer decodes to entries with distinct IDs, none of them "reduce", fewer entries
-- and dependencies than an `int` counts, and an entry that no entry depends on, and no plan has the
-- task's ID, `plan` leaves the plan scheduled: its counts are the numbers of open edges, the nodes that
-- were released have no open edge, and those that are pending have one.
pub run_plan-Scheduled :
    (env : PlanEnv) (task : Task) (w : PlanWorld) (answer : Str) (raw : List RawNode)
    → generate env.provider (env.decomposition task.spec.prompt) ≡ some answer
    → env.unmarshal (extract_json answer) ≡ some raw
    → Decomposes raw
    → lookup task.meta.id w.manager.plans ≡ none
    → Scheduled (run_plan env task w).0.manager.heap (plan_of_task env task w.manager.heap)
unfolding run_plan plan_of_task
run_plan-Scheduled env task w answer raw g u dec fresh =
    let h = w.manager.heap in
    let d = draft_plan env task h in
    let p = plan_of_draft task.meta.id task.meta.owner env.now d in
    let formed : WellFormed p =
      subst (λ x. WellFormed (plan_of_draft task.meta.id task.meta.owner env.now x))
        (sym (draft_of_answer env task h answer raw g u))
        (parsed-WellFormed task.meta.id raw h env.next dec task.meta.owner env.now) in
    ingest-Scheduled (with_notify task p) env.now (record manager { heap = d.heap })
      (rw (with_notify_id p task) fresh) (notify-WellFormed p task formed)
  where
    open w use {manager}

import_task_keeps :
    (task : Task) (id : Str) (t : Tracer)
    → is_some (get_local id t) ≡ true
    → is_some (get_local id (import_task task t).0) ≡ true
unfolding get_local import_task
import_task_keeps task id t h = ground (arith, lookup-insert task.meta.id id task t.local)

import_task_adds :
    (task : Task) (t : Tracer) → is_some (get_local task.meta.id (import_task task t).0) ≡ true
unfolding get_local import_task
import_task_adds task t =
    ground (arith, lookup-insert task.meta.id task.meta.id task t.local, str_eq_refl task.meta.id)

import_nodes_keeps :
    (h : Heap) (owner id : Str) (ns : Map Addr) (t : Tracer)
    → is_some (get_local id t) ≡ true
    → is_some (get_local id (import_nodes h owner ns t)) ≡ true
unfolding import_nodes
import_nodes_keeps h owner id [] t e = e
import_nodes_keeps h owner id ((k, a) ∷ rest) t e =
    import_nodes_keeps h owner id rest _ (import_task_keeps _ id t e)

import_nodes_traced :
    (h : Heap) (owner s : Str) (a : Addr) (ns : Map Addr) (t : Tracer)
    → lookup s ns ≡ some a
    → is_some (get_local (h a).id (import_nodes h owner ns t)) ≡ true
unfolding import_nodes lookup
import_nodes_traced h owner s a [] t e = cc
import_nodes_traced h owner s a ((k, b) ∷ rest) t e = elim (Bool-cases (str_eq k s)) [
  | inl hit ↦
      let same : b ≡ a = ground arith in
      rw (← same) (import_nodes_keeps h owner (h b).id rest _ (import_task_adds _ t))
  | inr miss ↦ import_nodes_traced h owner s a rest _ (ground arith)
]

-- Whatever the answer was, the tracer knows every node of the plan once `plan` has run, so that the
-- board finds the nodes that `Ingest` announces.
pub run_plan_traced :
    (env : PlanEnv) (task : Task) (w : PlanWorld) (s : Str) (a : Addr)
    → lookup s (plan_of_task env task w.manager.heap).nodes ≡ some a
    → is_some
        (get_local ((draft_plan env task w.manager.heap).heap a).id (run_plan env task w).0.tracer)
      ≡ true
unfolding run_plan
run_plan_traced env task w s a e =
    let p = plan_of_task env task w.manager.heap in
    import_nodes_traced (draft_plan env task w.manager.heap).heap p.owner s a p.nodes w.tracer e
