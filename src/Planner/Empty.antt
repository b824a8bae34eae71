-- ===== src/Planner/Empty.antt =====
-- internal/task_workflow_layer/task_planner/planner.go: `parse` of an answer with no entries.
use lucinda.Base.{◌≡◌, refl, Str, insert, ℤ, [], ◌∷◌}
use lucinda.Task.{Addr, Heap}
use lucinda.Planner.Defs.{reduce_id, draft_of, plan_of_draft}

empty_plan :
    (plan_id owner : Str) (now : ℤ) (h : Heap) (next : Addr)
    → let p = plan_of_draft plan_id owner now (draft_of plan_id [] h next) in
      (p.roots ≡ []) × (p.nodes ≡ (reduce_id plan_id, next) ∷ [])
unfolding draft_of insert
empty_plan plan_id owner now h next = (refl, refl)
