-- ===== src/StateManager/Cascade.antt =====
-- internal/task_management_layer/task_state_manager/manager.go: the cascade of `Complete`, seen from
-- one node of the plan.
use lucinda.Base.{
  ℕ, suc, zero, ◌+◌, ◌-◌, ◌≤◌, ◌<◌, ◌≡◌, refl, ◌∙◌, Str, str_eq, str_eq_iff, Map, lookup, lookup_or,
  lookup-insert, List, [], ◌∷◌, ◌++◌, Bool, some, true, false, ◌&&◌, ◌==◌, ltb, if◌then◌else◌,
  arith, Bool-cases, Option-cases, inl, inr, ℤ, pos, sub64, sub64_one, int_min_abs,
}
use lucinda.Task.{ready, Addr}
use lucinda.Messages.{EventType, task_ready}
use lucinda.StateManager.Core.{Manager, state_of}
use lucinda.StateManager.Complete.{visit_successor, cascade}
use lucinda.StateManager.Graph.{occurrences}

-- Two names of the plan never lead to the same node.
abbrev pub Injective : Map Addr → Type 0
Injective nodes = (s t : Str) (b : Addr) → lookup s nodes ≡ some b → lookup t nodes ≡ some b → s ≡ t

abbrev is_task_ready : EventType → Bool
is_task_ready task_ready = true
is_task_ready _ = false

-- How often a node was announced as ready.
unfoldable pub ready_events : Addr → List (EventType × Addr) → ℕ
ready_events b [] = 0
ready_events b ((t, a) ∷ rest) = (if is_task_ready t && a == b then 1 else 0) + ready_events b rest

ready_events-append :
    (b a : Addr) (l : List (EventType × Addr))
    → ready_events b (l ++ (task_ready, a) ∷ []) ≡ ready_events b l + (if a == b then 1 else 0)
unfolding ready_events
ready_events-append b a [] = ground arith
ready_events-append b a ((t, c) ∷ rest) = ground (arith, ready_events-append b a rest)

module _ (nodes : Map Addr) (s : Str) (b : Addr) (at : lookup s nodes ≡ some b) where
  -- A visit of the node itself.
  visit_same :
      (m : Manager) (nums : Map ℤ) (k : ℕ)
      → lookup_or (pos 0) s nums ≡ pos (suc k)
      → suc k < int_min_abs
      → (lookup_or (pos 0) s (visit_successor nodes s (m, nums)).1 ≡ pos k)
        × (state_of (visit_successor nodes s (m, nums)).0 b
            ≡ (if k == 0 then ready else state_of m b))
        × (ready_events b (visit_successor nodes s (m, nums)).0.published
            ≡ ready_events b m.published + (if k == 0 then 1 else 0))
  unfolding visit_successor
  visit_same m nums k c small =
      rw (at, c, visit_successor)
        (ground (
          arith,
          lookup-insert s s (sub64 (pos (suc k)) (pos 1)) nums,
          str_eq_iff s s,
          sub64_one k,
          ready_events-append b b m.published,
        ))

  same_name :
      (t : Str)
      → str_eq t s ≡ true
      → (m : Manager) (nums : Map ℤ) (k : ℕ) → lookup_or (pos 0) s nums ≡ pos (suc k)
      → suc k < int_min_abs
      → (lookup_or (pos 0) s (visit_successor nodes t (m, nums)).1 ≡ pos k)
        × (state_of (visit_successor nodes t (m, nums)).0 b
            ≡ (if k == 0 then ready else state_of m b))
        × (ready_events b (visit_successor nodes t (m, nums)).0.published
            ≡ ready_events b m.published + (if k == 0 then 1 else 0))
  same_name t e = rw ((str_eq_iff t s).0 e) visit_same

  -- A visit of another name.
  visit_other :
      Injective nodes
      → (t : Str) (m : Manager) (nums : Map ℤ) → str_eq t s ≡ false
      → (lookup_or (pos 0) s (visit_successor nodes t (m, nums)).1 ≡ lookup_or (pos 0) s nums)
        × (state_of (visit_successor nodes t (m, nums)).0 b ≡ state_of m b)
        × (ready_events b (visit_successor nodes t (m, nums)).0.published
            ≡ ready_events b m.published)
  unfolding visit_successor
  visit_other inj t m nums ne = elim (Option-cases (lookup t nodes)) [
    | inl e ↦ rw (e, visit_successor) (refl, refl, refl)
    | inr (c, e) ↦
        rw (e, visit_successor)
          (ground (
            arith,
            lookup-insert t s (sub64 (lookup_or (pos 0) t nums) (pos 1)) nums,
            str_eq_iff t s,
            inj s t b at,
            e,
            ready_events-append b c m.published,
          ))
  ]

  -- After the whole loop.
  pub cascade_count :
      Injective nodes
      → (ts : List Str) (m : Manager) (nums : Map ℤ) (k : ℕ) → lookup_or (pos 0) s nums ≡ pos k
      → k < int_min_abs
      → occurrences s ts ≤ k
      → (lookup_or (pos 0) s (cascade nodes ts (m, nums)).1 ≡ pos (k - occurrences s ts))
        × (state_of (cascade nodes ts (m, nums)).0 b ≡ (
            if ltb 0 (occurrences s ts) && (k - occurrences s ts == 0)
            then ready
            else state_of m b))
        × (ready_events b (cascade nodes ts (m, nums)).0.published
            ≡ ready_events b m.published
              + (if ltb 0 (occurrences s ts) && (k - occurrences s ts == 0) then 1 else 0))
  unfolding cascade occurrences
  cascade_count inj [] m nums k c small enough = ground arith
  cascade_count inj (t ∷ ts) m nums zero c small enough = elim (Bool-cases (str_eq t s)) [
    | inl e ↦ absurd (ground arith)
    | inr e ↦
        let (m', nums') = visit_successor nodes t (m, nums) in
        let seen = visit_other inj t m nums e in
        ground (arith, seen, cascade_count inj ts m' nums' zero (seen.0 ∙ c) small)
  ]
  cascade_count inj (t ∷ ts) m nums (suc k) c small enough = elim (Bool-cases (str_eq t s)) [
    | inl e ↦
        let (m', nums') = visit_successor nodes t (m, nums) in
        let seen = same_name t e m nums k c small in
        ground (arith, seen, cascade_count inj ts m' nums' k seen.0)
    | inr e ↦
        let (m', nums') = visit_successor nodes t (m, nums) in
        let seen = visit_other inj t m nums e in
        ground (arith, seen, cascade_count inj ts m' nums' (suc k) (seen.0 ∙ c) small)
  ]
