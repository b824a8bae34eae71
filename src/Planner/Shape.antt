-- ===== src/Planner/Shape.antt =====
-- internal/task_workflow_layer/task_planner/planner.go: names, addresses and roots in the plan that
-- `parse` builds.
use lucinda.Base.{
  ◌<◌, ◌≡◌, refl, subst, ◌∙◌, Str, str_eq, str_eq_iff, lookup, lookup-insert, List, [], ◌∷◌, ◌++◌,
  some, is_some, lit, Bool, true, false, ◌&&◌, ◌||◌, ◌==◌, length, any, Bool-cases, inl, inr, arith,
}
use lucinda.Task.{TaskSpec, Addr}
use lucinda.Capability.{is_empty}
use lucinda.StateManager.Cascade.{Injective}
use lucinda.Planner.Defs.{RawNode, node_id, Draft, new_node, add_node}
use lucinda.Planner.Degrees.{deps_of}

pub str_eq_append : (p s t : Str) → str_eq (p ++ s) (p ++ t) ≡ str_eq s t
unfolding str_eq
str_eq_append [] s t = refl
str_eq_append (c ∷ p) s t = ground (arith, str_eq_append p s t)

-- Some entry of the answer has that name.
abbrev pub has_id : Str → List RawNode → Bool
has_id id raw = any (λ n. str_eq n.id id) raw

abbrev pub named : Str → List RawNode → Str → Bool
named plan_id raw s = any (λ n. str_eq (node_id plan_id n.id) s) raw

abbrev pub rooted : Str → List RawNode → Str → Bool
rooted plan_id raw s = any (λ n. str_eq (node_id plan_id n.id) s && is_empty n.deps) raw

-- No two entries of the answer have the same name.
abbrev pub DistinctIds : List RawNode → Type 0
DistinctIds [] = Unit
DistinctIds (n ∷ rest) = (has_id n.id rest ≡ false) × DistinctIds rest

pub named_lem :
    (plan_id id : Str) (raw : List RawNode) → named plan_id raw (node_id plan_id id) ≡ has_id id raw
named_lem plan_id id [] = refl
named_lem plan_id id (n ∷ rest) =
    ground (arith, str_eq_append (plan_id ++ lit "-") n.id id, named_lem plan_id id rest)

pub unnamed :
    (plan_id s : Str) (raw : List RawNode)
    → named plan_id raw s ≡ false
    → (rooted plan_id raw s ≡ false) × (deps_of plan_id raw s ≡ 0)
unfolding deps_of
unnamed plan_id s [] h = (refl, refl)
unnamed plan_id s (n ∷ rest) h = ground (arith, unnamed plan_id s rest)

-- A root is a node with no dependency.
pub rooted_iff :
    (plan_id s : Str) (raw : List RawNode)
    → DistinctIds raw
    → named plan_id raw s ≡ true
    → rooted plan_id raw s ≡ (deps_of plan_id raw s == 0)
unfolding deps_of
rooted_iff plan_id s [] d h = cc
rooted_iff plan_id s (n ∷ rest) d h = elim (Bool-cases (str_eq (node_id plan_id n.id) s)) [
  | inl e ↦
      let only : named plan_id rest s ≡ false =
        subst (λ u. named plan_id rest u ≡ false) ((str_eq_iff (node_id plan_id n.id) s).0 e)
          (named_lem plan_id n.id rest ∙ d.0) in
      ground (arith, e, unnamed plan_id s rest only, no_deps n.deps)
  | inr e ↦ ground (arith, e, rooted_iff plan_id s rest d.1)
]
  where
    no_deps : (l : List Str) → is_empty l ≡ (length l == 0)
    no_deps [] = refl
    no_deps (x ∷ xs) = ground arith

-- The first loop.

-- Nodes stand below `next`, each under one name.
pub record Allocated (d : Draft) : Type 0 where
  pub injective : Injective d.nodes
  pub below : (s : Str) (b : Addr) → lookup s d.nodes ≡ some b → b < d.next

pub new_node-Allocated :
    (id : Str) (spec : TaskSpec) (d : Draft) → Allocated d → Allocated (new_node id spec d)
unfolding new_node
new_node-Allocated id spec d v = record {
  injective = λ s t b es et. ground (
    arith,
    lookup-insert id s d.next d.nodes,
    lookup-insert id t d.next d.nodes,
    str_eq_iff id s,
    str_eq_iff id t,
    v.injective s t b,
    v.below s b,
    v.below t b,
  );
  below = λ s b e. ground (arith, lookup-insert id s d.next d.nodes, v.below s b);
}

any-snoc {ℓ} :
    {A : Type ℓ} (p : A → Bool) (x : A) (xs : List A) → any p (xs ++ x ∷ []) ≡ (any p xs || p x)
any-snoc p x [] = ground arith
any-snoc p x (y ∷ ys) = ground (arith, any-snoc p x ys)

pub add_node_effect :
    (plan_id s : Str) (n : RawNode) (d : Draft)
    → ((add_node plan_id n d).successors ≡ d.successors)
      × (any (λ r. str_eq r s) (add_node plan_id n d).roots
          ≡ (any (λ r. str_eq r s) d.roots || (str_eq (node_id plan_id n.id) s && is_empty n.deps)))
      × (is_some (lookup s (add_node plan_id n d).nodes)
          ≡ (str_eq (node_id plan_id n.id) s || is_some (lookup s d.nodes)))
unfolding add_node
add_node_effect plan_id s n d = ground (
  arith,
  lookup-insert (node_id plan_id n.id) s d.next d.nodes,
  any-snoc (λ r. str_eq r s) (node_id plan_id n.id) d.roots,
)
