-- ===== src/StateManager/Deadlock.antt =====
-- internal/task_management_layer/task_state_manager/manager.go: plans whose graph has no cycle.
use lucinda.Base.{
  ℕ, suc, zero, ◌<◌, ◌≡◌, Str, str_eq_refl, str_eq_iff, Map, lookup, lookup_or, List, [], ◌∷◌, some,
  Bool, true, false, ltb, arith, Bool-cases, inl, inr, ◌⊎◌,
}
use lucinda.Task.{NodeState, pending, TaskPlan, Addr, Heap}
use lucinda.StateManager.Core.{is_done}
use lucinda.StateManager.Graph.{occurrences, open_edges, Distinct}
use lucinda.StateManager.Schedule.{closed, is_released, Shape, Scheduled}

-- An open edge has a source that is not closed.
open_source :
    (d : Str → Bool) (s : Str) (g : Map (List Str))
    → Distinct g
    → 0 < open_edges d g s
    → (p : Str) × (d p ≡ false) × (0 < occurrences s (lookup_or [] p g))
unfolding open_edges lookup occurrences
open_source d s [] u h = absurd (omega arith)
open_source d s ((p, ss) ∷ rest) u h = elim (Bool-cases (d p)) [
  | inl e ↦
      let (q, f, o) = open_source d s rest u.1 (ground arith) in
      (q, f, ground (arith, str_eq_iff p q, u.0))
  | inr e ↦ elim (Bool-cases (ltb 0 (occurrences s ss))) [
    | inl o ↦ (p, e, ground (arith, str_eq_refl p))
    | inr o ↦
        let (q, f, o') = open_source d s rest u.1 (ground arith) in
        (q, f, ground (arith, str_eq_iff p q, u.0))
  ]
]

-- The edges go up along a rank, and start at nodes of the plan.
pub record Acyclic (p : TaskPlan) : Type 0 where
  pub rank : Str → ℕ
  pub rises : (s t : Str) → 0 < occurrences t (lookup_or [] s p.successors) → rank s < rank t
  pub known :
      (s t : Str)
      → 0 < occurrences t (lookup_or [] s p.successors)
      → (a : Addr) × (lookup s p.nodes ≡ some a)

-- Waiting, at work, or done: neither failed nor disposed.
abbrev pub OnTrack : NodeState → Type 0
OnTrack s = (s ≡ pending) ⊎ (is_released s ≡ true)

module _ (h : Heap) (p : TaskPlan) (sh : Shape p) (v : Scheduled h p) (acyclic : Acyclic p)
    (on_track : (s : Str) (b : Addr) → lookup s p.nodes ≡ some b → OnTrack (h b).state) where
  active_below :
      (n : ℕ) (s : Str) (b : Addr)
      → acyclic.rank s < n
      → lookup s p.nodes ≡ some b
      → is_done (h b).state ≡ false
      → (t : Str) × (c : Addr) × (lookup t p.nodes ≡ some c)
        × (is_released (h c).state ≡ true)
        × (is_done (h c).state ≡ false)
  active_below zero s b r at nd = absurd (omega arith)
  active_below (suc n) s b r at nd = elim (on_track s b at) [
    | inr rel ↦ (s, b, at, rel, nd)
    | inl w ↦
        let (q, not_done, occ) =
          open_source (closed h p.nodes) s p.successors sh.distinct (v.waiting s b at w) in
        let (c, at') = acyclic.known q s occ in
        active_below n q c (omega (arith, acyclic.rises q s occ)) at' (ground arith)
  ]

  -- In an acyclic plan of the right shape under its schedule, of which no node failed or was
  -- disposed, as long as some node is not done there is a node that is Ready, Claimed or Running:
  -- nothing waits for nothing.
  pub never_stuck :
      (s : Str) (b : Addr)
      → lookup s p.nodes ≡ some b
      → is_done (h b).state ≡ false
      → (t : Str) × (c : Addr) × (lookup t p.nodes ≡ some c)
        × (is_released (h c).state ≡ true)
        × (is_done (h c).state ≡ false)
  never_stuck s b at nd = active_below (suc (acyclic.rank s)) s b (omega arith) at nd
