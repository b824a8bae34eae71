-- ===== src/Planner/Building.antt =====
-- internal/task_workflow_layer/task_planner/planner.go: what each loop of `parse` builds, and what
-- it leaves alone.
use lucinda.Base.{
  ◌+◌, ◌≤◌, ◌≡◌, refl, subst, ◌∙◌, Str, str_eq, str_eq_iff, Map, lookup, lookup_or, insert,
  lookup-insert, pos, List, [], ◌∷◌, none, is_some, false, ◌||◌, length, any, Bool-cases, inl, inr,
  arith,
}
use lucinda.Capability.{is_empty}
use lucinda.StateManager.Graph.{Distinct}
use lucinda.Planner.Defs.{
  RawNode, raw_spec, node_id, Draft, add_dep, new_node, add_node, add_nodes, add_deps, link,
}
use lucinda.Planner.Shape.{named, rooted, Allocated, new_node-Allocated, add_node_effect}

-- The first loop.

pub add_nodes_effect :
    (plan_id s : Str) (raw : List RawNode) (d : Draft)
    → ((add_nodes plan_id raw d).successors ≡ d.successors)
      × (any (λ r. str_eq r s) (add_nodes plan_id raw d).roots
          ≡ (any (λ r. str_eq r s) d.roots || rooted plan_id raw s))
      × (is_some (lookup s (add_nodes plan_id raw d).nodes)
          ≡ (named plan_id raw s || is_some (lookup s d.nodes)))
unfolding add_nodes
add_nodes_effect plan_id s [] d = ground arith
add_nodes_effect plan_id s (n ∷ rest) d =
    ground
      (arith, add_node_effect plan_id s n d, add_nodes_effect plan_id s rest (add_node plan_id n d))

add_node_zero :
    (plan_id s : Str) (n : RawNode) (d : Draft)
    → lookup_or (pos 0) s d.predecessor_nums ≡ pos 0
    → lookup_or (pos 0) s (add_node plan_id n d).predecessor_nums ≡ pos 0
unfolding add_node
add_node_zero plan_id s n d e =
    ground (arith, lookup-insert (node_id plan_id n.id) s (pos 0) d.predecessor_nums)

pub add_nodes_zero :
    (plan_id s : Str) (raw : List RawNode) (d : Draft)
    → lookup_or (pos 0) s d.predecessor_nums ≡ pos 0
    → lookup_or (pos 0) s (add_nodes plan_id raw d).predecessor_nums ≡ pos 0
unfolding add_nodes
add_nodes_zero plan_id s [] d e = e
add_nodes_zero plan_id s (n ∷ rest) d e =
    add_nodes_zero plan_id s rest (add_node plan_id n d) (add_node_zero plan_id s n d e)

add_node-Allocated :
    (plan_id : Str) (n : RawNode) (d : Draft) → Allocated d → Allocated (add_node plan_id n d)
unfolding add_node
add_node-Allocated plan_id n d v = elim (Bool-cases (is_empty n.deps)) [
  | inl e ↦
      let v' = new_node-Allocated (node_id plan_id n.id) (raw_spec n) d v in
      rw e (record { injective = v'.injective; below = v'.below })
  | inr e ↦ rw e (new_node-Allocated (node_id plan_id n.id) (raw_spec n) d v)
]

pub add_nodes-Allocated :
    (plan_id : Str) (raw : List RawNode) (d : Draft)
    → Allocated d
    → Allocated (add_nodes plan_id raw d)
unfolding add_nodes
add_nodes-Allocated plan_id [] d v = v
add_nodes-Allocated plan_id (n ∷ rest) d v =
    add_nodes-Allocated plan_id rest (add_node plan_id n d) (add_node-Allocated plan_id n d v)

length-insert-le {ℓ} :
    {V : Type ℓ} (k : Str) (v : V) (m : Map V) → length (insert k v m) ≤ length m + 1
unfolding insert
length-insert-le k v [] = omega arith
length-insert-le k v ((j, w) ∷ m) = ground (arith, length-insert-le k v m)

-- The number of nodes.
length-add_node :
    (plan_id : Str) (n : RawNode) (d : Draft)
    → length (add_node plan_id n d).nodes ≤ length d.nodes + 1
unfolding add_node new_node
length-add_node plan_id n d = ground (arith, length-insert-le (node_id plan_id n.id) d.next d.nodes)

pub length-add_nodes :
    (plan_id : Str) (raw : List RawNode) (d : Draft)
    → length (add_nodes plan_id raw d).nodes ≤ length d.nodes + length raw
unfolding add_nodes
length-add_nodes plan_id [] d = omega arith
length-add_nodes plan_id (n ∷ rest) d =
    omega (arith, length-add_node plan_id n d, length-add_nodes plan_id rest (add_node plan_id n d))

-- The second loop changes the edges and the counts alone.
add_deps_frame :
    (plan_id id : Str) (deps : List Str) (d : Draft)
    → ((add_deps plan_id id deps d).nodes ≡ d.nodes)
      × ((add_deps plan_id id deps d).roots ≡ d.roots)
      × ((add_deps plan_id id deps d).next ≡ d.next)
unfolding add_deps
add_deps_frame plan_id id [] d = (refl, refl, refl)
add_deps_frame plan_id id (dep ∷ rest) d = add_deps_frame plan_id id rest (add_dep plan_id id dep d)

pub link_frame :
    (plan_id : Str) (raw : List RawNode) (d : Draft)
    → ((link plan_id raw d).nodes ≡ d.nodes)
      × ((link plan_id raw d).roots ≡ d.roots)
      × ((link plan_id raw d).next ≡ d.next)
unfolding link
link_frame plan_id [] d = (refl, refl, refl)
link_frame plan_id (n ∷ rest) d = ground (
  arith,
  add_deps_frame plan_id (node_id plan_id n.id) n.deps d,
  link_frame plan_id rest (add_deps plan_id (node_id plan_id n.id) n.deps d),
)

-- Keys stay distinct.
absent-insert {ℓ} :
    {V : Type ℓ} (k j : Str) (v : V) (m : Map V)
    → lookup j m ≡ none
    → str_eq k j ≡ false
    → lookup j (insert k v m) ≡ none
absent-insert k j v m e ne = lookup-insert k j v m ∙ ground arith

pub insert-Distinct {ℓ} :
    {V : Type ℓ} (k : Str) (v : V) (m : Map V) → Distinct m → Distinct (insert k v m)
unfolding insert lookup
insert-Distinct k v [] d = (refl, tt)
insert-Distinct k v ((j, w) ∷ m) d = elim (Bool-cases (str_eq j k)) [
  | inl e ↦ rw e (subst (λ u. lookup u m ≡ none) ((str_eq_iff j k).0 e) d.0, d.1)
  | inr e ↦ rw e (
    absent-insert k j v m d.0 (ground (arith, str_eq_iff j k, str_eq_iff k j, e)),
    insert-Distinct k v m d.1,
  )
]

add_deps-Distinct :
    (plan_id id : Str) (deps : List Str) (d : Draft)
    → Distinct d.successors
    → Distinct (add_deps plan_id id deps d).successors
unfolding add_deps
add_deps-Distinct plan_id id [] d v = v
add_deps-Distinct plan_id id (dep ∷ rest) d v =
    add_deps-Distinct plan_id id rest (add_dep plan_id id dep d)
      (insert-Distinct (node_id plan_id dep) _ d.successors v)

pub link-Distinct :
    (plan_id : Str) (raw : List RawNode) (d : Draft)
    → Distinct d.successors
    → Distinct (link plan_id raw d).successors
unfolding link
link-Distinct plan_id [] d v = v
link-Distinct plan_id (n ∷ rest) d v =
    link-Distinct plan_id rest (add_deps plan_id (node_id plan_id n.id) n.deps d)
      (add_deps-Distinct plan_id (node_id plan_id n.id) n.deps d v)
