-- ===== src/Planner/Degrees.antt =====
-- internal/task_workflow_layer/task_planner/planner.go: predecessor counts and in-degrees in the
-- loops of `parse`.
use lucinda.Base.{
  ℕ, ◌+◌, ◌≤◌, ◌<◌, ◌≡◌, sym, subst, ◌∙◌, Str, str_eq, str_eq_iff, str_eq_refl, Map, lookup,
  lookup_or, insert, lookup-insert, ℤ, pos, add64, add64_pos, int_min_abs, List, [], ◌∷◌, ◌++◌,
  true, false, if◌then◌else◌, length, Bool-cases, inl, inr, arith,
}
use lucinda.StateManager.Graph.{occurrences, open_edges}
use lucinda.Planner.Defs.{RawNode, node_id, Draft, add_dep, append_successor, add_deps, link}

-- All edges into `s`.
abbrev pub edges_to : Map (List Str) → Str → ℕ
edges_to g s = open_edges (λ _. false) g s

-- The dependencies that the answer lists for the node called `s`.
unfoldable pub deps_of : Str → List RawNode → Str → ℕ
deps_of plan_id [] s = 0
deps_of plan_id (n ∷ rest) s =
    (if str_eq (node_id plan_id n.id) s then length n.deps else 0) + deps_of plan_id rest s

unfoldable pub total_deps : List RawNode → ℕ
total_deps [] = 0
total_deps (n ∷ rest) = length n.deps + total_deps rest

pub deps_of-le : (plan_id s : Str) (raw : List RawNode) → deps_of plan_id raw s ≤ total_deps raw
unfolding deps_of total_deps
deps_of-le plan_id s [] = omega arith
deps_of-le plan_id s (n ∷ rest) = ground (arith, deps_of-le plan_id s rest)

occurrences-snoc :
    (s t : Str) (ts : List Str)
    → occurrences s (ts ++ t ∷ []) ≡ occurrences s ts + (if str_eq t s then 1 else 0)
unfolding occurrences
occurrences-snoc s t [] = ground arith
occurrences-snoc s t (u ∷ ts) = ground (arith, occurrences-snoc s t ts)

edges_to-insert :
    (source s : Str) (ts : List Str) (g : Map (List Str))
    → edges_to (insert source ts g) s + occurrences s (lookup_or [] source g)
      ≡ edges_to g s + occurrences s ts
unfolding open_edges lookup insert occurrences
edges_to-insert source s ts [] = ground arith
edges_to-insert source s ts ((k, us) ∷ g) = ground (arith, edges_to-insert source s ts g)

-- A new edge counts once, at its target.
pub edges_to-append_successor :
    (source t s : Str) (g : Map (List Str))
    → edges_to (append_successor source t g) s ≡ edges_to g s + (if str_eq t s then 1 else 0)
edges_to-append_successor source t s g =
    let ts = lookup_or [] source g in
    omega (arith, edges_to-insert source s (ts ++ t ∷ []) g, occurrences-snoc s t ts)

pub add_deps_edges :
    (plan_id id s : Str) (deps : List Str) (d : Draft)
    → edges_to (add_deps plan_id id deps d).successors s
      ≡ edges_to d.successors s + (if str_eq id s then length deps else 0)
unfolding add_deps
add_deps_edges plan_id id s [] d = ground arith
add_deps_edges plan_id id s (dep ∷ rest) d = ground (
  arith,
  add_deps_edges plan_id id s rest (add_dep plan_id id dep d),
  edges_to-append_successor (node_id plan_id dep) id s d.successors,
)

-- One more at the node itself, and nothing at any other.
add_dep_nums :
    (plan_id id dep s : Str) (d : Draft) (j k : ℕ)
    → lookup_or (pos 0) id d.predecessor_nums ≡ pos j
    → lookup_or (pos 0) s d.predecessor_nums ≡ pos k
    → j + 1 < int_min_abs
    → lookup_or (pos 0) s (add_dep plan_id id dep d).predecessor_nums
      ≡ pos (if str_eq id s then j + 1 else k)
add_dep_nums plan_id id dep s d j k ej ek small =
    let one = add64 (lookup_or (pos 0) id d.predecessor_nums) (pos 1) in
    let value : one ≡ pos (j + 1) = rw ej (add64_pos j 1 small) in
    ground (arith, lookup-insert id s one d.predecessor_nums, value)

same_count :
    (id s : Str) (m : Map ℤ) (j k : ℕ)
    → lookup_or (pos 0) id m ≡ pos j
    → lookup_or (pos 0) s m ≡ pos k
    → str_eq id s ≡ true
    → j ≡ k
same_count id s m j k ej ek e =
    let same : pos j ≡ pos k =
      sym ej ∙ subst (λ u. lookup_or (pos 0) u m ≡ pos k) (sym ((str_eq_iff id s).0 e)) ek in
    ground arith

pub add_deps_nums :
    (plan_id id s : Str) (deps : List Str) (d : Draft) (j k : ℕ)
    → lookup_or (pos 0) id d.predecessor_nums ≡ pos j
    → lookup_or (pos 0) s d.predecessor_nums ≡ pos k
    → j + length deps < int_min_abs
    → lookup_or (pos 0) s (add_deps plan_id id deps d).predecessor_nums
      ≡ pos (k + (if str_eq id s then length deps else 0))
unfolding add_deps
add_deps_nums plan_id id s [] d j k ej ek small = ground arith
add_deps_nums plan_id id s (dep ∷ rest) d j k ej ek small =
    let room : j + 1 < int_min_abs = omega arith in
    let d' = add_dep plan_id id dep d in
    let at_id = add_dep_nums plan_id id dep id d j j ej ej room in
    let at_s = add_dep_nums plan_id id dep s d j k ej ek room in
    elim (Bool-cases (str_eq id s)) [
      | inl e ↦ ground (
        arith,
        e,
        str_eq_refl id,
        at_id,
        at_s,
        same_count id s d.predecessor_nums j k ej ek e,
        add_deps_nums plan_id id s rest d' (j + 1) (j + 1),
      )
      | inr e ↦
          ground
            (arith, e, str_eq_refl id, at_id, at_s, add_deps_nums plan_id id s rest d' (j + 1) k)
    ]

-- The second loop adds the listed dependencies to the edges and to the counts alike.
pub link_edges :
    (plan_id s : Str) (raw : List RawNode) (d : Draft)
    → edges_to (link plan_id raw d).successors s ≡ edges_to d.successors s + deps_of plan_id raw s
unfolding link deps_of
link_edges plan_id s [] d = omega arith
link_edges plan_id s (n ∷ rest) d = ground (
  arith,
  add_deps_edges plan_id (node_id plan_id n.id) s n.deps d,
  link_edges plan_id s rest (add_deps plan_id (node_id plan_id n.id) n.deps d),
)

-- Counts that are numbers below a bound.
abbrev pub CountsBelow : ℕ → Map ℤ → Type 0
CountsBelow b m = (s : Str) → (k : ℕ) × (lookup_or (pos 0) s m ≡ pos k) × (k ≤ b)

pub link_nums :
    (plan_id s : Str) (raw : List RawNode) (d : Draft) (b k : ℕ)
    → CountsBelow b d.predecessor_nums
    → lookup_or (pos 0) s d.predecessor_nums ≡ pos k
    → b + total_deps raw < int_min_abs
    → lookup_or (pos 0) s (link plan_id raw d).predecessor_nums ≡ pos (k + deps_of plan_id raw s)
unfolding link deps_of total_deps
link_nums plan_id s [] d b k c e small = ground arith
link_nums plan_id s (n ∷ rest) d b k c e small =
    let id = node_id plan_id n.id in
    let (j, ej, jb) = c id in
    let d' = add_deps plan_id id n.deps d in
    let c' : CountsBelow (b + length n.deps) d'.predecessor_nums = λ u.
      let (i, ei, ib) = c u in
      (
        i + (if str_eq id u then length n.deps else 0),
        add_deps_nums plan_id id u n.deps d j i ej ei (omega arith),
        ground arith,
      ) in
    ground (
      arith,
      link_nums plan_id s rest d' (b + length n.deps)
          (k + (if str_eq id s then length n.deps else 0)) c'
          (add_deps_nums plan_id id s n.deps d j k ej e (omega arith)) (omega arith),
    )
