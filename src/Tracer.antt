-- ===== src/Tracer.antt =====
-- internal/task_management_layer/task_tracer/tracer.go: the store of local and assigned tasks.
-- A method returns the new store and its error, `none` for `nil`.
pub mod Store
use lucinda.Base.{Str, Map, lookup, insert, delete, List, [], ◌∷◌, Option, none, some, map}
use lucinda.Task.{Task}

pub data Error : Type 0 where
  already_local already_assigned not_found : Str → Error

pub record Tracer : Type 0 where
  pub local : Map Task
  pub assigned : Map Task

unfoldable pub new_task_tracer : Tracer
new_task_tracer = record { local = []; assigned = [] }

unfoldable pub import_task : Task → Tracer → Tracer × Option Error
import_task task t = elim (lookup task.meta.id t.local) [
  | some old ↦ (t, some (already_local task.meta.id))
  | none ↦ (record t { local = insert task.meta.id task t.local }, none)
]

unfoldable pub assign_task : Task → Tracer → Tracer × Option Error
assign_task task t = elim (lookup task.meta.id t.assigned) [
  | some old ↦ (t, some (already_assigned task.meta.id))
  | none ↦ (record t { assigned = insert task.meta.id task t.assigned }, none)
]

abbrev pub with_output : Str → Task → Task
with_output output task = record task { spec = record spec { output = output } }
  where
    open task use {spec}

-- A write through the stored pointer.
unfoldable pub set_output : Str → Str → Tracer → Tracer × Option Error
set_output id output t = elim (lookup id t.local) [
  | some task ↦ (record t { local = insert id (with_output output task) t.local }, none)
  | none ↦ elim (lookup id t.assigned) [
    | some task ↦ (record t { assigned = insert id (with_output output task) t.assigned }, none)
    | none ↦ (t, some (not_found id))
  ]
]

unfoldable pub remove : Str → Tracer → Tracer × Option Error
remove id t = elim (lookup id t.local) [
  | some task ↦ (record t { local = delete id t.local }, none)
  | none ↦ elim (lookup id t.assigned) [
    | some task ↦ (record t { assigned = delete id t.assigned }, none)
    | none ↦ (t, some (not_found id))
  ]
]

unfoldable pub get_local : Str → Tracer → Option Task
get_local id t = lookup id t.local

unfoldable pub get_assigned : Str → Tracer → Option Task
get_assigned id t = lookup id t.assigned

abbrev values : Map Task → List Task
values m = map (λ e. e.1) m

unfoldable pub list_local : Tracer → List Task
list_local t = values t.local

unfoldable pub list_assigned : Tracer → List Task
list_assigned t = values t.assigned
