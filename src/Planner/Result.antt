-- ===== src/Planner/Result.antt =====
-- internal/task_workflow_layer/task_planner/planner.go: the plan that `parse` makes of an answer
-- whose entries have distinct names.
use lucinda.Base.{
  ◌+◌, ◌<◌, ◌≡◌, refl, sym, subst, ◌∙◌, ap, Str, str_eq, str_eq_iff, Map, lookup, lookup_or,
  lookup-insert, ℤ, pos, int_min_abs, List, [], some, is_some, lit, Bool, true, false, ◌||◌,
  if◌then◌else◌, length, any, arith,
}
use lucinda.Task.{Addr, Heap}
use lucinda.StateManager.Graph.{open_edges, Distinct}
use lucinda.StateManager.Cascade.{Injective}
use lucinda.StateManager.Schedule.{Shape}
use lucinda.StateManager.Start.{WellFormed}
use lucinda.Planner.Defs.{
  RawNode, node_id, Draft, add_nodes, link, leaves, reduce_id, reduce_spec, empty_draft, draft_of,
  plan_of_draft,
}
use lucinda.Planner.Degrees.{
  edges_to, deps_of, total_deps, deps_of-le, link_edges, link_nums, CountsBelow,
}
use lucinda.Planner.Shape.{
  has_id, named, rooted, DistinctIds, named_lem, unnamed, rooted_iff, Allocated, new_node-Allocated,
}
use lucinda.Planner.Leaves.{
  length-leaves, leaves_some, add_edges_to_effect, add_edges_to-Distinct, link_free,
}
use lucinda.Planner.Building.{
  add_nodes_effect, add_nodes_zero, add_nodes-Allocated, length-add_nodes, link_frame,
  link-Distinct,
}

-- The answer: distinct names, none of them "reduce", fewer entries and dependencies than an `int`
-- counts, and an entry that no entry depends on.
pub record Decomposes (raw : List RawNode) : Type 0 where
  pub distinct_ids : DistinctIds raw
  pub no_reduce : has_id (lit "reduce") raw ≡ false
  pub few_deps : total_deps raw < int_min_abs
  pub few_nodes : length raw < int_min_abs
  pub last_id : Str
  pub last_listed : has_id last_id raw ≡ true
  pub last_free : any (λ n. any (λ d. str_eq d last_id) n.deps) raw ≡ false

none_listed : (s : Str) (b : Addr) → lookup s [] ≡ some b → ⊥
unfolding lookup
none_listed s b e = cc

module _ (plan_id : Str) (raw : List RawNode) (h : Heap) (next : Addr) (w : Decomposes raw) where
  abbrev added : Draft
  added = add_nodes plan_id raw (empty_draft h next)

  abbrev linked : Draft
  linked = link plan_id raw added

  abbrev ends : List Str
  ends = leaves linked.successors linked.nodes

  linked_edges : (s : Str) → edges_to linked.successors s ≡ deps_of plan_id raw s
  unfolding open_edges
  linked_edges s = ground (
    arith,
    link_edges plan_id s raw added,
    ap (λ g. edges_to g s) (add_nodes_effect plan_id s raw (empty_draft h next)).0,
  )

  linked_nums :
      (s : Str) → lookup_or (pos 0) s linked.predecessor_nums ≡ pos (deps_of plan_id raw s)
  unfolding lookup
  linked_nums s =
      let zeros : CountsBelow 0 added.predecessor_nums =
        λ u. (0, add_nodes_zero plan_id u raw (empty_draft h next) refl, omega arith) in
      ground (
        arith,
        link_nums plan_id s raw added 0 0 zeros
            (add_nodes_zero plan_id s raw (empty_draft h next) refl) (ground (arith, w.few_deps)),
      )

  linked_nodes : (s : Str) → is_some (lookup s linked.nodes) ≡ named plan_id raw s
  unfolding lookup
  linked_nodes s = ground (
    arith,
    ap (λ (m : Map Addr). is_some (lookup s m)) (link_frame plan_id raw added).0,
    add_nodes_effect plan_id s raw (empty_draft h next),
  )

  linked_roots : (s : Str) → any (λ r. str_eq r s) linked.roots ≡ rooted plan_id raw s
  linked_roots s = ground (
    arith,
    ap (λ (l : List Str). any (λ r. str_eq r s) l) (link_frame plan_id raw added).1,
    add_nodes_effect plan_id s raw (empty_draft h next),
  )

  some_end : 0 < length ends
  unfolding lookup
  some_end =
      leaves_some linked.successors linked.nodes (node_id plan_id w.last_id)
        (linked_nodes (node_id plan_id w.last_id) ∙ named_lem plan_id w.last_id raw ∙ w.last_listed)
        (link_free plan_id w.last_id raw added w.last_free (
          ap (λ g. lookup_or [] (node_id plan_id w.last_id) g)
            (add_nodes_effect plan_id [] raw (empty_draft h next)).0))

  abbrev final : Draft
  final = draft_of plan_id raw h next

  abbrev is_final : Str → Bool
  is_final s = str_eq (reduce_id plan_id) s

  no_edges_to_reduce :
      (s : Str) → is_final s ≡ true → (deps_of plan_id raw s ≡ 0) × (rooted plan_id raw s ≡ false)
  no_edges_to_reduce s e =
      let absent : named plan_id raw s ≡ false =
        subst (λ u. named plan_id raw u ≡ false) ((str_eq_iff (reduce_id plan_id) s).0 e)
          (named_lem plan_id (lit "reduce") raw ∙ w.no_reduce) in
      let (r, d) = unnamed plan_id s raw absent in (d, r)

  final_edges :
      (s : Str)
      → edges_to final.successors s
        ≡ deps_of plan_id raw s + (if is_final s then length ends else 0)
  unfolding draft_of
  final_edges s =
      ground
        (arith, linked_edges s, add_edges_to_effect (reduce_id plan_id) s ends linked.successors)

  final_nums :
      (s : Str)
      → lookup_or (pos 0) s final.predecessor_nums
        ≡ pos (if is_final s then length ends else deps_of plan_id raw s)
  unfolding draft_of
  final_nums s = ground (
    arith,
    linked_nums s,
    lookup-insert (reduce_id plan_id) s (pos (length ends)) linked.predecessor_nums,
  )

  final_named :
      (s : Str) (b : Addr)
      → lookup s final.nodes ≡ some b
      → (is_final s || named plan_id raw s) ≡ true
  unfolding draft_of
  final_named s b e =
      ground (arith, linked_nodes s, lookup-insert (reduce_id plan_id) s linked.next linked.nodes)

  linked-Allocated : Allocated linked
  linked-Allocated =
      let v = add_nodes-Allocated plan_id raw (empty_draft h next) nothing in
      let (nodes, _, at) = link_frame plan_id raw added in
      record {
        injective = subst Injective (sym nodes) v.injective;
        below = λ s b e.
            subst (λ n. b < n) (sym at)
              (v.below s b (ap (λ (m : Map Addr). lookup s m) (sym nodes) ∙ e));
      }
    where
      nothing : Allocated (empty_draft h next)
      nothing = record {
        injective = λ s t b e f. absurd (none_listed s b e);
        below = λ s b e. absurd (none_listed s b e);
      }

  final-Injective : Injective final.nodes
  unfolding draft_of
  final-Injective =
      (new_node-Allocated (reduce_id plan_id) reduce_spec linked linked-Allocated).injective

  ends_few : length ends < int_min_abs
  ends_few = omega (
    arith,
    length-leaves linked.successors linked.nodes,
    ap (λ (m : Map Addr). length m) (link_frame plan_id raw added).0,
    length-add_nodes plan_id raw (empty_draft h next),
    w.few_nodes,
  )

  final-Distinct : Distinct final.successors
  unfolding draft_of
  final-Distinct = add_edges_to-Distinct (reduce_id plan_id) ends linked.successors (
      link-Distinct plan_id raw added
        (subst Distinct (sym (add_nodes_effect plan_id [] raw (empty_draft h next)).0) tt))

  final_roots : (s : Str) → any (λ r. str_eq r s) final.roots ≡ rooted plan_id raw s
  unfolding draft_of
  final_roots s = linked_roots s

  final-Shape : (owner : Str) (now : ℤ) → Shape (plan_of_draft plan_id owner now final)
  final-Shape owner now = record {
    injective = final-Injective;
    distinct = final-Distinct;
    small = λ s. ground (
      arith,
      final_edges s,
      deps_of-le plan_id s raw,
      w.few_deps,
      ends_few,
      no_edges_to_reduce s,
    );
  }

  -- Of an answer whose entries have distinct names, none of them "reduce", with an entry that no
  -- entry depends on, and with fewer than 2 ^ 63 entries and dependencies, `parse` makes a
  -- well-formed plan: its counts are the in-degrees, the reduce node's included, and its roots are
  -- the nodes with no dependency.
  pub parsed-WellFormed :
      (owner : Str) (now : ℤ) → WellFormed (plan_of_draft plan_id owner now final)
  parsed-WellFormed owner now = record {
    shape = final-Shape owner now;
    in_degrees = λ s b e. ground (arith, final_edges s, final_nums s, no_edges_to_reduce s);
    rooted = λ s b e. ground (
      arith,
      final_edges s,
      final_named s b e,
      final_roots s,
      some_end,
      no_edges_to_reduce s,
      rooted_iff plan_id s raw w.distinct_ids,
    );
  }
