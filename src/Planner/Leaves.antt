-- ===== src/Planner/Leaves.antt =====
-- internal/task_workflow_layer/task_planner/planner.go: the leaves of the graph, and the edges from
-- them to the reduce node.
use lucinda.Base.{
  ◌+◌, ◌≤◌, ◌<◌, ◌≡◌, sym, subst, Str, str_eq, str_eq_iff, Map, lookup, lookup_or, lookup-insert,
  List, [], ◌∷◌, ◌++◌, is_some, lit, true, false, if◌then◌else◌, length, any, Bool-cases, inl, inr,
  arith,
}
use lucinda.Task.{Addr}
use lucinda.StateManager.Graph.{Distinct}
use lucinda.Planner.Defs.{
  RawNode, node_id, Draft, add_dep, append_successor, add_deps, link, leaves, add_edges_to,
}
use lucinda.Planner.Degrees.{edges_to, edges_to-append_successor}
use lucinda.Planner.Shape.{str_eq_append}
use lucinda.Planner.Building.{insert-Distinct}

pub length-leaves : (g : Map (List Str)) (ns : Map Addr) → length (leaves g ns) ≤ length ns
unfolding leaves
length-leaves g [] = omega arith
length-leaves g ((id, a) ∷ rest) = ground (arith, length-leaves g rest)

pub leaves_some :
    (g : Map (List Str)) (ns : Map Addr) (s : Str)
    → is_some (lookup s ns) ≡ true
    → lookup_or [] s g ≡ []
    → 0 < length (leaves g ns)
unfolding leaves lookup
leaves_some g [] s h e = cc
leaves_some g ((id, a) ∷ rest) s h e = elim (Bool-cases (str_eq id s)) [
  | inl same ↦
      let empty : lookup_or [] id g ≡ [] =
        subst (λ u. lookup_or [] u g ≡ []) (sym ((str_eq_iff id s).0 same)) e in
      ground (arith, empty)
  | inr other ↦ ground (arith, leaves_some g rest s)
]

pub add_edges_to_effect :
    (target s : Str) (ends : List Str) (g : Map (List Str))
    → edges_to (add_edges_to target ends g) s
      ≡ edges_to g s + (if str_eq target s then length ends else 0)
unfolding add_edges_to
add_edges_to_effect target s [] g = ground arith
add_edges_to_effect target s (leaf ∷ rest) g = ground (
  arith,
  edges_to-append_successor leaf target s g,
  add_edges_to_effect target s rest (append_successor leaf target g),
)

pub add_edges_to-Distinct :
    (target : Str) (ends : List Str) (g : Map (List Str))
    → Distinct g
    → Distinct (add_edges_to target ends g)
unfolding add_edges_to
add_edges_to-Distinct target [] g v = v
add_edges_to-Distinct target (leaf ∷ rest) g v =
    add_edges_to-Distinct target rest (append_successor leaf target g)
      (insert-Distinct leaf (lookup_or [] leaf g ++ target ∷ []) g v)

-- No edge leaves a node that nothing depends on.
pub add_deps_free :
    (plan_id id x : Str) (deps : List Str) (d : Draft)
    → any (λ y. str_eq y x) deps ≡ false
    → lookup_or [] (node_id plan_id x) d.successors ≡ []
    → lookup_or [] (node_id plan_id x) (add_deps plan_id id deps d).successors ≡ []
unfolding add_deps
add_deps_free plan_id id x [] d h e = e
add_deps_free plan_id id x (dep ∷ rest) d h e =
    add_deps_free plan_id id x rest (add_dep plan_id id dep d) (ground arith) (
      ground (
        arith,
        str_eq_append (plan_id ++ lit "-") dep x,
        lookup-insert (node_id plan_id dep) (node_id plan_id x)
            (lookup_or [] (node_id plan_id dep) d.successors ++ id ∷ []) d.successors,
      ))

pub link_free :
    (plan_id x : Str) (raw : List RawNode) (d : Draft)
    → any (λ n. any (λ y. str_eq y x) n.deps) raw ≡ false
    → lookup_or [] (node_id plan_id x) d.successors ≡ []
    → lookup_or [] (node_id plan_id x) (link plan_id raw d).successors ≡ []
unfolding link
link_free plan_id x [] d h e = e
link_free plan_id x (n ∷ rest) d h e =
    link_free plan_id x rest (add_deps plan_id (node_id plan_id n.id) n.deps d) (ground arith)
      (add_deps_free plan_id (node_id plan_id n.id) x n.deps d (ground arith) e)
