-- ===== src/Tracer/Store.antt =====
-- internal/task_management_layer/task_tracer/tracer.go: the methods against later reads.
use lucinda.Base.{
  ◌≡◌, Str, str_eq, str_eq_iff, lookup, lookup-insert, lookup-delete, Option, none, some,
  if◌then◌else◌, arith, ◌&&◌, not, is_some, Option-cases, inl, inr,
}
use lucinda.Task.{Task}
use lucinda.Tracer.{Tracer, import_task, set_output, remove, get_local, get_assigned, with_output}

-- `Import` adds a task under its ID unless there is a local one, which it keeps.
pub get_local-import_task :
    (task : Task) (id : Str) (t : Tracer)
    → get_local id (import_task task t).0 ≡ (
        if str_eq task.meta.id id
        then (elim (get_local id t) [ some old ↦ some old | none ↦ some task ])
        else get_local id t)
unfolding get_local import_task
get_local-import_task task id t =
    ground (arith, str_eq_iff task.meta.id id, lookup-insert task.meta.id id task t.local)

abbrev pub update : Str → Option Task → Option Task
update output none = none
update output (some task) = some (with_output output task)

-- `SetOutput` is read back from the local task if there is one, and else from the assigned one; no
-- other task of either store changes.
get-set_output :
    (id other output : Str) (t : Tracer)
    → let t' = (set_output id output t).0 in
      (get_local other t'
        ≡ (if str_eq id other then update output (get_local other t) else get_local other t))
      × (get_assigned other t' ≡ (
          if str_eq id other && not (is_some (get_local id t))
          then update output (get_assigned other t)
          else get_assigned other t))
unfolding get_local get_assigned set_output
get-set_output id other output t = elim (Option-cases (lookup id t.local)) [
  | inr (task, e) ↦
      rw (e, set_output)
        (ground
          (arith, str_eq_iff id other, e, lookup-insert id other (with_output output task) t.local))
  | inl e ↦ elim (Option-cases (lookup id t.assigned)) [
    | inl e' ↦ rw (e, e', set_output) (ground (arith, str_eq_iff id other, e, e'))
    | inr (task, e') ↦
        rw (e, e', set_output)
          (ground (
            arith,
            str_eq_iff id other,
            e,
            e',
            lookup-insert id other (with_output output task) t.assigned,
          ))
  ]
]

-- `Remove` takes the local task if there is one, and else the assigned one; no other task of either
-- store changes.
get-remove :
    (id other : Str) (t : Tracer)
    → let t' = (remove id t).0 in
      (get_local other t' ≡ (if str_eq id other then none else get_local other t))
      × (get_assigned other t' ≡ (
          if str_eq id other
          then (elim (get_local id t) [ some task ↦ get_assigned other t | none ↦ none ])
          else get_assigned other t))
unfolding get_local get_assigned remove
get-remove id other t =
    ground (
      arith,
      str_eq_iff id other,
      lookup-delete id other t.local,
      lookup-delete id other t.assigned,
    )

-- `SetOutput` is read back from the local task if there is one, and else from the assigned one, and
-- `Remove` takes the local task if there is one, and else the assigned one; neither changes another
-- task of either store.
writes_local_first :
    (id other output : Str) (t : Tracer)
    → let t' = (set_output id output t).0 in
      let t'' = (remove id t).0 in
      (get_local other t'
        ≡ (if str_eq id other then update output (get_local other t) else get_local other t))
      × (get_assigned other t' ≡ (
          if str_eq id other && not (is_some (get_local id t))
          then update output (get_assigned other t)
          else get_assigned other t))
      × (get_local other t'' ≡ (if str_eq id other then none else get_local other t))
      × (get_assigned other t'' ≡ (
          if str_eq id other
          then (elim (get_local id t) [ some task ↦ get_assigned other t | none ↦ none ])
          else get_assigned other t))
writes_local_first id other output t =
    let (l, a) = get-set_output id other output t in
    let (l', a') = get-remove id other t in (l, a, l', a')
