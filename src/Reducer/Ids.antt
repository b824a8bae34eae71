-- ===== src/Reducer/Ids.antt =====
-- internal/task_workflow_layer/task_reducer/reducer.go: `parentPlanID` against the IDs that the
-- planner gives.
use lucinda.Base.{◌≡◌, refl, ap, suc, ◌≤◌, Str, [], ◌∷◌, some, length, take, arith}
use lucinda.Planner.{reduce_id}
use lucinda.Reducer.{count_dashes, last_dash, parent_plan_id}

count_dashes-reduce_id : (p : Str) → count_dashes (reduce_id p) ≡ suc (count_dashes p)
unfolding count_dashes
count_dashes-reduce_id [] = refl
count_dashes-reduce_id (c ∷ s) = ground (arith, count_dashes-reduce_id s)

last_dash-reduce_id : (p : Str) → last_dash (reduce_id p) ≡ some (length p)
unfolding last_dash
last_dash-reduce_id [] = refl
last_dash-reduce_id (c ∷ s) = ground (arith, last_dash-reduce_id s)

take-reduce_id : (p : Str) → take (length p) (reduce_id p) ≡ p
take-reduce_id [] = refl
take-reduce_id (c ∷ s) = ap (λ t. c ∷ t) (take-reduce_id s)

-- From the ID of a reduce node the reducer gets back the ID of the plan that it belongs to, if that
-- one has a dash in it.
pub parent_plan_id-reduce_id :
    (plan_id : Str) → 1 ≤ count_dashes plan_id → parent_plan_id (reduce_id plan_id) ≡ plan_id
unfolding parent_plan_id
parent_plan_id-reduce_id plan_id h =
    ground
      (arith, count_dashes-reduce_id plan_id, last_dash-reduce_id plan_id, take-reduce_id plan_id)
