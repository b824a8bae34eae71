-- ===== src/StateManager/Weights.antt =====
-- internal/task_management_layer/task_state_manager/manager.go: how many calls a plan has before it.
use lucinda.Base.{
  ℕ, ◌+◌, ◌<◌, ◌≤◌, ◌≡◌, sym, subst, Str, str_eq, str_eq_iff, str_eq_refl, Map, lookup, [], ◌∷◌,
  some, true, false, arith, Bool-cases, inl, inr, ◌⊎◌,
}
use lucinda.Task.{NodeState, ready, claimed, running, done, Addr, Heap}
use lucinda.StateManager.Core.{is_done}
use lucinda.StateManager.Graph.{Distinct}
use lucinda.StateManager.Schedule.{is_released}
use lucinda.StateManager.Deadlock.{OnTrack}

-- The calls that a node has before it until it is done.
abbrev pub weight : NodeState → ℕ
weight done = 0
weight running = 1
weight claimed = 2
weight ready = 3
weight _ = 4

unfoldable pub total : Heap → Map Addr → ℕ
total h [] = 0
total h ((k, a) ∷ rest) = weight (h a).state + total h rest

total-le :
    (h h' : Heap) (ns : Map Addr)
    → Distinct ns
    → ((s : Str) (b : Addr) → lookup s ns ≡ some b → weight (h' b).state ≤ weight (h b).state)
    → total h' ns ≤ total h ns
unfolding total lookup
total-le h h' [] u le = omega arith
total-le h h' ((k, a) ∷ rest) u le = ground (
  arith,
  le k a (ground (arith, str_eq_refl k)),
  total-le h h' rest u.1 (λ s b e. le s b (ground (arith, str_eq_iff k s, u.0, e))),
)

pub total-less :
    (h h' : Heap) (t : Str) (c : Addr) (ns : Map Addr)
    → Distinct ns
    → ((s : Str) (b : Addr) → lookup s ns ≡ some b → weight (h' b).state ≤ weight (h b).state)
    → lookup t ns ≡ some c
    → weight (h' c).state < weight (h c).state
    → total h' ns < total h ns
unfolding total lookup
total-less h h' t c [] u le e lt = cc
total-less h h' t c ((k, a) ∷ rest) u le e lt =
    let below : (s : Str) (b : Addr)
        → lookup s rest ≡ some b
        → weight (h' b).state ≤ weight (h b).state =
      λ s b f. le s b (ground (arith, str_eq_iff k s, u.0, f)) in
    elim (Bool-cases (str_eq k t)) [
      | inl hit ↦ ground (arith, total-le h h' rest u.1 below, hit, e, lt)
      | inr miss ↦ ground (
        arith,
        le k a (ground (arith, str_eq_refl k)),
        total-less h h' t c rest u.1 below (ground (arith, miss, e)) lt,
      )
    ]

-- Nearer to its end, or where it was.
abbrev pub Forward : NodeState → NodeState → Type 0
Forward s t = (t ≡ s) ⊎ (weight t < weight s) × (is_released t ≡ true)

pub Forward-weight : (s t : NodeState) → Forward s t → weight t ≤ weight s
Forward-weight s t (inl e) = rw e (omega arith)
Forward-weight s t (inr (lt, r)) = omega (arith, lt)

pub Forward-OnTrack : (s t : NodeState) → Forward s t → OnTrack s → OnTrack t
Forward-OnTrack s t (inl e) o = subst (λ x. OnTrack x) (sym e) o
Forward-OnTrack s t (inr (lt, r)) o = inr r

-- Either every node of the map is done, or one is not.
pub done_or_not :
    (h : Heap) (ns : Map Addr)
    → Distinct ns
    → ((s : Str) (b : Addr) → lookup s ns ≡ some b → is_done (h b).state ≡ true)
      ⊎ ((s : Str) × (b : Addr) × (lookup s ns ≡ some b) × (is_done (h b).state ≡ false))
unfolding lookup
done_or_not h [] u = inl (λ s b e. cc)
done_or_not h ((k, a) ∷ rest) u = elim (Bool-cases (is_done (h a).state)) [
  | inr nd ↦ inr (k, a, ground (arith, str_eq_refl k), nd)
  | inl d ↦ elim (done_or_not h rest u.1) [
    | inl all_done ↦ inl (λ s b e. elim (Bool-cases (str_eq k s)) [
      | inl hit ↦ ground (arith, hit, e, d)
      | inr miss ↦ all_done s b (ground (arith, miss, e))
    ])
    | inr (s, b, e, nd) ↦ inr (s, b, ground (arith, str_eq_iff k s, u.0, e), nd)
  ]
]
