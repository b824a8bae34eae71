-- ===== src/StateManager/Footprint.antt =====
-- internal/task_management_layer/task_state_manager/manager.go: which nodes the loops change.
use lucinda.Base.{
  ◌≡◌, refl, ◌∙◌, ap, Str, str_eq_iff, str_eq_refl, Map, lookup, lookup-insert, insert, List, [],
  ◌∷◌, none, some, arith, ℤ, Option-cases, Bool-cases, inl, inr, ◌==◌, ==_iff, All,
}
use lucinda.Task.{NodeState, pending, ready, TaskPlan, Addr, Heap}
use lucinda.StateManager.Core.{write, Manager, state_of, set_state, publish}
use lucinda.StateManager.Ingest.{register_nodes, ready_roots, ingest}
use lucinda.StateManager.Complete.{visit_successor, cascade}
use lucinda.StateManager.Graph.{Distinct}
use lucinda.StateManager.Start.{ingest_heap}

-- No node of the map is at the address.
abbrev pub Misses : Map Addr → Addr → Type 0
Misses ns b = (s : Str) → lookup s ns ≡ some b → ⊥

visit_successor-Misses :
    (ns : Map Addr) (t : Str) (m : Manager) (nums : Map ℤ) (b : Addr)
    → Misses ns b
    → state_of (visit_successor ns t (m, nums)).0 b ≡ state_of m b
unfolding visit_successor set_state publish write
visit_successor-Misses ns t m nums b miss = elim (Option-cases (lookup t ns)) [
  | inl e ↦ ground (arith, e)
  | inr (a, e) ↦ elim (Bool-cases (a == b)) [
    | inl hit ↦ absurd (miss t (e ∙ ap some ((==_iff a b).0 hit)))
    | inr other ↦ ground (arith, e, other)
  ]
]

-- The cascade changes the nodes of its plan only.
pub cascade-Misses :
    (ns : Map Addr) (ts : List Str) (m : Manager) (nums : Map ℤ) (b : Addr)
    → Misses ns b
    → state_of (cascade ns ts (m, nums)).0 b ≡ state_of m b
unfolding cascade
cascade-Misses ns [] m nums b miss = refl
cascade-Misses ns (t ∷ ts) m nums b miss =
    let (m', nums') = visit_successor ns t (m, nums) in
    cascade-Misses ns ts m' nums' b miss ∙ visit_successor-Misses ns t m nums b miss

ready_roots-Misses :
    (p : TaskPlan) (b : Addr)
    → Misses p.nodes b
    → (rs : List Str) (m : Manager) → state_of (ready_roots p rs m).0 b ≡ state_of m b
unfolding ready_roots set_state write
ready_roots-Misses p b miss [] m = refl
ready_roots-Misses p b miss (r ∷ rs) m = elim (Option-cases (lookup r p.nodes)) [
  | inl e ↦ rw (e, ready_roots) (ready_roots-Misses p b miss rs m)
  | inr (a, e) ↦ elim (Bool-cases (a == b)) [
    | inl hit ↦ absurd (miss r (e ∙ ap some ((==_iff a b).0 hit)))
    | inr other ↦
        rw (e, ready_roots)
          (ready_roots-Misses p b miss rs (set_state a ready m) ∙ ground (arith, other))
  ]
]

register_nodes-Misses :
    (ns : Map Addr) (m : Manager) (b : Addr)
    → Distinct ns
    → Misses ns b
    → state_of (register_nodes ns m) b ≡ state_of m b
unfolding register_nodes set_state write lookup
register_nodes-Misses [] m b u miss = refl
register_nodes-Misses ((k, a) ∷ rest) m b u miss =
    let m' = set_state a pending (record m { nodes = insert (m.heap a).id a m.nodes }) in
    elim (Bool-cases (a == b)) [
      | inl hit ↦ absurd (miss k (ground (arith, str_eq_refl k, hit)))
      | inr other ↦
          register_nodes-Misses rest m' b u.1
            (λ s e. miss s (ground (arith, str_eq_iff k s, u.0, e)))
          ∙ ground (arith, other)
    ]

-- `Ingest` changes the nodes of its plan only.
pub ingest-Misses :
    (p : TaskPlan) (now : ℤ) (m : Manager) (b : Addr)
    → lookup p.id m.plans ≡ none
    → Distinct p.nodes
    → Misses p.nodes b
    → state_of (ingest p now m).0 b ≡ state_of m b
ingest-Misses p now m b fresh u miss =
    let m₀ : Manager = record m { plans = insert p.id p m.plans } in
    ap (λ (h : Heap). (h b).state) (ingest_heap p now m fresh)
    ∙ ready_roots-Misses p b miss p.roots (register_nodes p.nodes m₀)
    ∙ register_nodes-Misses p.nodes m₀ b u miss

-- Each node stands under the name that it carries.
abbrev pub Named : Heap → Map Addr → Type 0
Named h ns = All (λ e. (h e.1).id ≡ e.0) ns

write_id :
    (h : Heap) (a b : Addr) (s : NodeState)
    → (write a (record (h a) { state = s }) h b).id ≡ (h b).id
unfolding write
write_id h a b s = ground (arith, ==_iff a b)

Named-write :
    (h : Heap) (a : Addr) (s : NodeState) (ns : Map Addr)
    → Named h ns
    → Named (write a (record (h a) { state = s }) h) ns
Named-write h a s [] n = tt
Named-write h a s ((k, b) ∷ rest) n = (write_id h a b s ∙ n.0, Named-write h a s rest n.1)

-- What the loop of `Ingest` registers.
pub lookup-register_nodes :
    (ns : Map Addr) (m : Manager) (s : Str)
    → Distinct ns
    → Named m.heap ns
    → lookup s (register_nodes ns m).nodes
      ≡ (elim (lookup s ns) [ none ↦ lookup s m.nodes | some b ↦ some b ])
unfolding register_nodes set_state lookup
lookup-register_nodes [] m s u n = refl
lookup-register_nodes ((k, a) ∷ rest) m s u n =
    let m' = set_state a pending (record m { nodes = insert (m.heap a).id a m.nodes }) in
    let more = lookup-register_nodes rest m' s u.1 (Named-write m.heap a pending rest n.1) in
    ground (arith, more, n.0, lookup-insert k s a m.nodes, str_eq_iff k s, u.0)
