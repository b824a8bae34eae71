-- ===== src/StateManager/Finishing.antt =====
-- internal/task_management_layer/task_state_manager/manager.go: from any state in which a plan is on
-- its way, calls that lead to its end.
use lucinda.Base.{
  ℕ, suc, zero, ◌<◌, ◌≡◌, ◌∙◌, ap, ==_iff, Str, str_eq_iff, str_eq_refl, Map, lookup, [], some,
  true, false, arith, ℤ, pos, Option-cases, inl, inr, ◌⊎◌,
}
use lucinda.Task.{NodeState, ready, claimed, running, TaskPlan, Addr}
use lucinda.StateManager.Core.{Manager, state_of, is_done, write, set_state}
use lucinda.StateManager.Lifecycle.{set_lease, claim, start}
use lucinda.StateManager.Complete.{complete, owning_plan}
use lucinda.StateManager.Graph.{Distinct}
use lucinda.StateManager.Schedule.{is_released}
use lucinda.StateManager.Deadlock.{Acyclic, OnTrack, never_stuck}
use lucinda.StateManager.Calls.{claims, starts, apply, apply-Moves}
use lucinda.StateManager.Completion.{complete_releases}
use lucinda.StateManager.Progress.{complete-Scheduled}
use lucinda.StateManager.Books.{Good}
use lucinda.StateManager.Frames.{apply_books}
use lucinda.StateManager.Completing.{owning_plan_found, owning_plan_missing}
use lucinda.StateManager.Traces.{Step, completes, calls, Step-Good, Reach, Reach-Good}
use lucinda.StateManager.Weights.{
  weight, total, total-less, Forward, Forward-weight, Forward-OnTrack, done_or_not,
}

-- A plan in the books none of whose nodes failed or was disposed.
pub record Underway (k : Str) (p : TaskPlan) (m : Manager) : Type 0 where
  pub in_books : lookup k m.plans ≡ some p
  pub on_track : (s : Str) (b : Addr) → lookup s p.nodes ≡ some b → OnTrack (state_of m b)

-- One call of `Claim`, `Start` or `Complete` on a node of the map.
pub data Work (nodes : Map Addr) : Manager → Manager → Type 0 where
  claiming :
      (t : Str) (c : Addr) (m : Manager)
      → lookup t nodes ≡ some c
      → Work nodes m (apply (claims t [] (pos 30) (pos 0)) m).0
  starting :
      (t : Str) (c : Addr) (m : Manager)
      → lookup t nodes ≡ some c
      → Work nodes m (apply (starts t) m).0
  completing :
      (t : Str) (c : Addr) (m : Manager)
      → lookup t nodes ≡ some c
      → Work nodes m (complete t [] m).0

Work-Step : {nodes : Map Addr} {m m' : Manager} → Work nodes m m' → Step m m'
Work-Step (claiming t c m e) = calls (claims t [] (pos 30) (pos 0)) m tt
Work-Step (starting t c m e) = calls (starts t) m tt
Work-Step (completing t c m e) = completes t [] m

-- Such calls one after another.
pub data Runs (nodes : Map Addr) : Manager → Manager → Type 0 where
  here : {m : Manager} → Runs nodes m m
  next : {m m₁ m₂ : Manager} → Work nodes m m₁ → Runs nodes m₁ m₂ → Runs nodes m m₂

owner :
    (k t : Str) (p : TaskPlan) (m : Manager) (c : Addr)
    → Good m
    → lookup k m.plans ≡ some p
    → lookup t p.nodes ≡ some c
    → owning_plan t m.plans ≡ some (k, p)
owner k t p m c g e at = elim (Option-cases (owning_plan t m.plans)) [
  | inl gone ↦ absurd (let missing = owning_plan_missing t k p m.plans gone e in cc)
  | inr ((k', p'), found) ↦
      let (e', has) = owning_plan_found t k' p' m.plans g.distinct found in
      elim (Option-cases (lookup t p'.nodes)) [
        | inl gone ↦ absurd (ground (arith, has, gone))
        | inr (c', at') ↦
            let same = g.apart k' k p' p t c' c e' e at' at in ground (arith, found, e', e, same)
      ]
]

at_work :
    (s : NodeState)
    → is_released s ≡ true
    → is_done s ≡ false
    → (s ≡ ready) ⊎ ((s ≡ claimed) ⊎ (s ≡ running))
at_work s r nd = ground arith

claimed_state :
    (t : Str) (c : Addr) (m : Manager)
    → lookup t m.nodes ≡ some c
    → state_of m c ≡ ready
    → state_of (claim t [] (pos 30) (pos 0) m).0 c ≡ claimed
unfolding claim set_lease write
claimed_state t c m at r = ground (arith, ==_iff c c)

running_state :
    (t : Str) (c : Addr) (m : Manager)
    → lookup t m.nodes ≡ some c
    → state_of m c ≡ claimed
    → state_of (start t m).0 c ≡ running
unfolding start set_state write
running_state t c m at r = ground (arith, ==_iff c c)

-- The next call for a node that is at work.
module _ (k t : Str) (p : TaskPlan) (m : Manager) (c : Addr) (g : Good m)
    (e : lookup k m.plans ≡ some p) (at : lookup t p.nodes ≡ some c) where
  abbrev Advances : Manager → Type 0
  Advances m' =
      (nums : Map ℤ) × Work p.nodes m m'
      × (lookup k m'.plans ≡ some (record p { predecessor_nums = nums }))
      × ((s : Str) (b : Addr) → lookup s p.nodes ≡ some b → Forward (state_of m b) (state_of m' b))
      × (weight (state_of m' c) < weight (state_of m c))

  Advances-claim : state_of m c ≡ ready → Advances (apply (claims t [] (pos 30) (pos 0)) m).0
  unfolding apply
  Advances-claim r = (
    p.predecessor_nums,
    claiming t c m at,
    ap (lookup k) (apply_books (claims t [] (pos 30) (pos 0)) m).0 ∙ e,
    (λ s b f. ground (arith, apply-Moves (claims t [] (pos 30) (pos 0)) m b)),
    ground (arith, r, claimed_state t c m (g.registered k p t c e at) r),
  )

  Advances-start : state_of m c ≡ claimed → Advances (apply (starts t) m).0
  unfolding apply
  Advances-start r = (
    p.predecessor_nums,
    starting t c m at,
    ap (lookup k) (apply_books (starts t) m).0 ∙ e,
    (λ s b f. ground (arith, apply-Moves (starts t) m b)),
    ground (arith, r, running_state t c m (g.registered k p t c e at) r),
  )

  Advances-complete : state_of m c ≡ running → Advances (complete t [] m).0
  Advances-complete r =
      let node = g.registered k p t c e at in
      let owns = owner k t p m c g e at in
      let released =
        complete_releases t [] k p c m node r owns at (g.shape k p e) (g.scheduled k p e) in
      let (nums, kept, v) =
        complete-Scheduled t [] k p c m node r owns at (g.shape k p e) (g.scheduled k p e) in
      (
        nums,
        completing t c m at,
        kept,
        (λ s b f.
            ground
              (arith, released s b f, (g.scheduled k p e).ordered s b f, str_eq_iff s t, at, f, r)),
        ground (arith, released t c at, str_eq_refl t, r),
      )

  advances :
      is_released (state_of m c) ≡ true
      → is_done (state_of m c) ≡ false
      → (m' : Manager) × Advances m'
  advances rel nd = elim (at_work (state_of m c) rel nd) [
    | inl r ↦ ((apply (claims t [] (pos 30) (pos 0)) m).0, Advances-claim r)
    | inr (inl r) ↦ ((apply (starts t) m).0, Advances-start r)
    | inr (inr r) ↦ ((complete t [] m).0, Advances-complete r)
  ]

-- The calls to the end of the plan, by the number of calls that are left.
finishes :
    (n : ℕ) (k : Str) (p : TaskPlan) (m : Manager)
    → total m.heap p.nodes < n
    → Good m
    → Underway k p m
    → Acyclic p
    → Distinct p.nodes
    → (m' : Manager) × Runs p.nodes m m'
      × ((s : Str) (b : Addr) → lookup s p.nodes ≡ some b → is_done (state_of m' b) ≡ true)
finishes zero k p m few g way acyclic u = absurd (omega arith)
finishes (suc n) k p m few g way acyclic u = elim (done_or_not m.heap p.nodes u) [
  | inl all_done ↦ (m, here, all_done)
  | inr (s, b, e, nd) ↦
      let v = g.scheduled k p way.in_books in
      let (t, c, at, rel, nd') =
        never_stuck m.heap p (g.shape k p way.in_books) v acyclic way.on_track s b e nd in
      let (m₁, (nums, step, kept, forward, less)) = advances k t p m c g way.in_books at rel nd' in
      let p' : TaskPlan = record p { predecessor_nums = nums } in
      let fewer =
        total-less m.heap m₁.heap t c p.nodes u
          (λ s' b' f. Forward-weight (state_of m b') (state_of m₁ b') (forward s' b' f)) at less in
      let way' : Underway k p' m₁ = record {
        in_books = kept;
        on_track = λ s' b' f.
            Forward-OnTrack (state_of m b') (state_of m₁ b') (forward s' b' f)
              (way.on_track s' b' f);
      } in
      let (m', run, ended) =
        finishes n k p' m₁ (omega (arith, fewer, few)) (Step-Good (Work-Step step) g) way'
          (record { rank = acyclic.rank; rises = acyclic.rises; known = acyclic.known }) u in
      (m', next step run, ended)
]

-- From any state that a run of the state manager reaches, a plan in the books whose edges are free of
-- cycles and all start at nodes of the plan, so that no node depends on a missing one, which has no
-- name twice and no node that failed or was disposed, can be brought to its end: calls of Claim, Start
-- and Complete on its own nodes lead to a state in which all its nodes are done.
pub can_finish :
    {m : Manager} (k : Str) (p : TaskPlan)
    → Reach m
    → Underway k p m
    → Acyclic p
    → Distinct p.nodes
    → (m' : Manager) × Runs p.nodes m m'
      × ((s : Str) (b : Addr) → lookup s p.nodes ≡ some b → is_done (state_of m' b) ≡ true)
can_finish {m} k p r way acyclic u =
    finishes (suc (total m.heap p.nodes)) k p m (omega arith) (Reach-Good r) way acyclic u
