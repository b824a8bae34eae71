-- ===== src/Witnesses/Waiting.antt =====
-- The example's plan is acyclic, and can be brought to its end after `Ingest`.
use lucinda.Base.{
  ◌≡◌, ◌<◌, ℕ, Str, lookup, lookup_or, List, [], ◌∷◌, some, Bool, true, false, if◌then◌else◌, ◌==◌,
  ltb, str_eq, str_eq_iff, arith, subst, inl, inr, lit, Bool-cases, refl, ◌⊎◌, sym, ap, pos,
}
use lucinda.Task.{NodeState, ready, pending, Addr}
use lucinda.StateManager.{state_of, is_done, new_task_state_manager}
use lucinda.StateManager.Graph.{occurrences, open_edges}
use lucinda.StateManager.Start.{ingest_state}
use lucinda.StateManager.Deadlock.{Acyclic, OnTrack}
use lucinda.Planner.{draft_of, reduce_id}
use lucinda.Base.{Map}
use lucinda.StateManager.{Manager}
use lucinda.StateManager.Finishing.{Underway, Runs, can_finish}
use lucinda.Witnesses.Runs.{steps_plan-Fresh, ingested-Reach}
use lucinda.Witnesses.Data.{
  ingested_plan, plan_id, first_id, second_id, steps_plan, steps_plan-WellFormed, idle, ingested,
  steps_second, steps_node,
}

-- The steps stand in their order, and the reduce node comes last.
abbrev rank : Str → ℕ
rank s = if str_eq s first_id then 0 else if str_eq s second_id then 1 else 2

abbrev edges : List (Str × List Str)
edges = (first_id, second_id ∷ []) ∷ (second_id, reduce_id plan_id ∷ []) ∷ []

steps_edges : steps_plan.successors ≡ edges
unfolding draft_of lucinda.Base.insert str_eq lookup
steps_edges = refl

only_one : (t u : Str) → 0 < occurrences t (u ∷ []) → u ≡ t
unfolding occurrences
only_one t u h = ground (arith, str_eq_iff u t)

no_edge :
    (s t : Str) (l : List Str) → l ≡ [] → 0 < occurrences t l → (first_id ≡ s) ⊎ (second_id ≡ s)
unfolding occurrences
no_edge s t [] e h = ground arith
no_edge s t (x ∷ xs) e h = cc

edge_source :
    (s t : Str) → 0 < occurrences t (lookup_or [] s edges) → (first_id ≡ s) ⊎ (second_id ≡ s)
unfolding lookup str_eq
edge_source s t h = elim (Bool-cases (str_eq first_id s)) [
  | inl e ↦ inl ((str_eq_iff first_id s).0 e)
  | inr e ↦ elim (Bool-cases (str_eq second_id s)) [
    | inl f ↦ inr ((str_eq_iff second_id s).0 f)
    | inr f ↦ no_edge s t (lookup_or [] s edges) (rw (e, f) refl) h
  ]
]

edges_rise : (s t : Str) → 0 < occurrences t (lookup_or [] s edges) → rank s < rank t
unfolding lookup str_eq
edges_rise s t h = elim (edge_source s t h) [
  | inl e ↦
      subst (λ x. 0 < occurrences t (lookup_or [] x edges) → rank x < rank t) e
        (λ k. subst (λ u. 0 < rank u) (only_one t second_id k) (omega arith)) h
  | inr e ↦
      subst (λ x. 0 < occurrences t (lookup_or [] x edges) → rank x < rank t) e
        (λ k. subst (λ u. 1 < rank u) (only_one t (reduce_id plan_id) k) (omega arith)) h
]

edges_known :
    (s t : Str)
    → 0 < occurrences t (lookup_or [] s edges)
    → (a : Addr) × (lookup s steps_plan.nodes ≡ some a)
edges_known s t h = elim (edge_source s t h) [
  | inl e ↦ subst (λ x. (a : Addr) × (lookup x steps_plan.nodes ≡ some a)) e (0, steps_node)
  | inr e ↦ subst (λ x. (a : Addr) × (lookup x steps_plan.nodes ≡ some a)) e (1, steps_second)
]

steps-Acyclic : Acyclic steps_plan
steps-Acyclic = record {
  rank = rank;
  rises = λ s t.
      subst (λ g. 0 < occurrences t (lookup_or [] s g) → rank s < rank t) (sym steps_edges)
        (edges_rise s t);
  known = λ s t.
      subst
        (λ g.
          0 < occurrences t (lookup_or [] s g) → (a : Addr) × (lookup s steps_plan.nodes ≡ some a))
        (sym steps_edges) (edges_known s t);
}

ready_or_pending : (c : Bool) (s : NodeState) → s ≡ (if c then ready else pending) → OnTrack s
ready_or_pending c s e = ground arith

ingested-OnTrack :
    (s : Str) (b : Addr) → lookup s steps_plan.nodes ≡ some b → OnTrack (ingested.heap b).state
unfolding new_task_state_manager lookup
ingested-OnTrack s b e =
    ready_or_pending (open_edges (λ _. false) steps_plan.successors s == 0) (state_of ingested b)
      (ingest_state steps_plan (pos 0) idle refl steps_plan-WellFormed s b e)

ingested-Underway : Underway plan_id steps_plan ingested
ingested-Underway = record { in_books = ingested_plan; on_track = ingested-OnTrack }

can_finish_example :
    (m' : Manager) × Runs steps_plan.nodes ingested m'
    × ((s : Str) (b : Addr) → lookup s steps_plan.nodes ≡ some b → is_done (state_of m' b) ≡ true)
can_finish_example =
    can_finish plan_id steps_plan ingested-Reach ingested-Underway steps-Acyclic
      steps_plan-Fresh.names
