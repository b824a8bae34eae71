-- ===== src/StateManager/TimedOut.antt =====
-- internal/task_management_layer/task_state_manager/manager.go: a plan after its deadline.
use lucinda.Base.{
  ◌≡◌, refl, sym, ◌∙◌, ap, Str, str_eq, str_eq_iff, lookup, Option, some, false, arith,
  Option-cases, Bool-cases, inl, inr,
}
use lucinda.Task.{done, TaskPlan, Addr, Chan, TaskNode}
use lucinda.StateManager.Core.{
  Error, Manager, state_of, set_state, is_done, all_done, all_nodes_done,
}
use lucinda.StateManager.Ingest.{ingest}
use lucinda.StateManager.Complete.{owning_plan, complete}
use lucinda.StateManager.Closing.{fire_deadline}
use lucinda.StateManager.Graph.{Distinct}
use lucinda.StateManager.Calls.{
  Call, claims, starts, fails, abandons, disposes, lease_fires, deadline_fires, apply, apply-Moves,
  is_live,
}
use lucinda.StateManager.Keeping.{apply-Gentle}
use lucinda.StateManager.Frames.{apply_books}
use lucinda.StateManager.Footprint.{ingest-Misses}
use lucinda.StateManager.Progress.{complete_running}
use lucinda.StateManager.Books.{Good}
use lucinda.StateManager.Completing.{
  owning_plan_found, complete_splits, complete_unowned, set_state_other, in_plan, other_states,
}
use lucinda.StateManager.Endings.{fire_deadline_once, settled_dead}
use lucinda.StateManager.Traces.{
  Step, allocates, ingests, completes, calls, Reach, goes_on, Reach-Good,
}
use lucinda.StateManager.Reports.{oks, oks-apply}
use lucinda.StateManager.Reporting.{Alone, all_nodes_done_same}
use lucinda.StateManager.OneResult.{Later, at_once, next, Stays, Step-Stays, Later-Good, one_result}

-- No node of the plan can run any more.
abbrev Dead : TaskPlan → Manager → Type 0
Dead p m = (s : Str) (b : Addr) → lookup s p.nodes ≡ some b → is_live (state_of m b) ≡ false

-- What the states of a dead plan's nodes may come to.
abbrev Rests : Manager → Manager → Addr → Type 0
Rests m m' b =
    (is_live (state_of m' b) ≡ false) × (is_done (state_of m' b) ≡ is_done (state_of m b))

same-Rests :
    (m m' : Manager) (b : Addr)
    → state_of m' b ≡ state_of m b
    → is_live (state_of m b) ≡ false
    → Rests m m' b
same-Rests m m' b same dead = (ap is_live same ∙ dead, ap is_done same)

apply-Dead :
    (o : Call) (m : Manager) (b : Addr)
    → is_live (state_of m b) ≡ false
    → is_live (state_of (apply o m).0 b) ≡ false
apply-Dead (claims id peer lease now) m b dead =
    ground (arith, apply-Moves (claims id peer lease now) m b, dead)
apply-Dead (starts id) m b dead = ground (arith, apply-Moves (starts id) m b, dead)
apply-Dead (fails id) m b dead = ground (arith, apply-Moves (fails id) m b, dead)
apply-Dead (abandons id) m b dead = ground (arith, apply-Moves (abandons id) m b, dead)
apply-Dead (disposes id) m b dead = ground (arith, apply-Moves (disposes id) m b, dead)
apply-Dead (lease_fires id) m b dead = ground (arith, apply-Moves (lease_fires id) m b, dead)
apply-Dead (deadline_fires text p) m b dead =
    ground (arith, apply-Moves (deadline_fires text p) m b, dead)

module _ (k : Str) (p : TaskPlan) (m : Manager) (g : Good m) (here : lookup k m.plans ≡ some p)
    (dead : Dead p m) where
  complete-Dead :
      (id output : Str) (s : Str) (b : Addr)
      → lookup s p.nodes ≡ some b
      → Rests m (complete id output m).0 b
  unfolding set_state
  complete-Dead id output s b e = elim (complete_splits id output m) [
    | inl same ↦ same-Rests m (complete id output m).0 b (ap (λ x. state_of x b) same) (dead s b e)
    | inr (a, at, r) ↦ elim (Option-cases (owning_plan id m.plans)) [
      | inl gone ↦
          same-Rests m (complete id output m).0 b
            (ap (λ x. state_of x b) (complete_unowned id output a m at r gone)
              ∙ set_state_other a b done m (λ ab. absurd (ground (arith, dead s b e, r, ab))))
            (dead s b e)
      | inr ((j, q), owns) ↦ elim (Bool-cases (str_eq j k)) [
        | inl eq ↦
            let found = (owning_plan_found id j q m.plans g.distinct owns).0 in
            let same : q ≡ p = ground (arith, str_eq_iff j k, eq, found, here) in
            let inside : lookup id p.nodes ≡ some a =
              ap (λ (x : TaskPlan). lookup id x.nodes) (sym same)
              ∙ in_plan id output a m at r g j q owns in
            absurd (ground (arith, dead id a inside, r))
        | inr ne ↦
            same-Rests m (complete id output m).0 b
              (ap (λ (x : Manager × Option Error). state_of x.0 b)
                  (complete_running id output j q a m at r owns)
                ∙ other_states id output a m at r g j q owns k p s b ne here e)
              (dead s b e)
      ]
    ]
  ]

Step-Dead :
    (k : Str) (p : TaskPlan) {m m' : Manager}
    → Good m
    → lookup k m.plans ≡ some p
    → Dead p m
    → Step m m'
    → (s : Str) (b : Addr) → lookup s p.nodes ≡ some b
    → Rests m m' b
Step-Dead k p g here dead (allocates h m same) s b e =
    same-Rests m (record m { heap = h }) b
      (ap (λ (n : TaskNode). n.state) (same s b (g.registered k p s b here e))) (dead s b e)
Step-Dead k p g here dead (ingests q now m w f) s b e =
    same-Rests m (ingest q now m).0 b
      (ingest-Misses q now m b f.new_id f.names
        (λ t there. f.new_nodes t s b there (g.registered k p s b here e)))
      (dead s b e)
Step-Dead k p g here dead (completes id output m) s b e =
    complete-Dead k p m g here dead id output s b e
Step-Dead k p g here dead (calls o m ok) s b e =
    (apply-Dead o m b (dead s b e), (apply-Gentle o m b ok).0)

Later-Dead :
    (k : Str) (p : TaskPlan) {m m' : Manager}
    → Good m
    → lookup k m.plans ≡ some p
    → Dead p m
    → Later m m'
    → Stays k p m' × ((s : Str) (b : Addr) → lookup s p.nodes ≡ some b → Rests m m' b)
Later-Dead k p g here dead at_once = ((p, here, refl, refl), (λ s b e. (dead s b e, refl)))
Later-Dead k p {m} g here dead (next {m' = m₁} {m'' = m'} l step) =
    let ((q, e₁, nodes, same), rests) = Later-Dead k p g here dead l in
    let g₁ = Later-Good g l in
    let (q', e', nodes', same') = Step-Stays k q g₁ e₁ step in
    let dead₁ : Dead q m₁ = λ s b e. (rests s b (ap (λ x. lookup s x) (sym nodes) ∙ e)).0 in
    (
      (q', e', nodes' ∙ nodes, same' ∙ same),
      (λ s b e.
          let after = Step-Dead k q g₁ e₁ dead₁ step s b (ap (λ x. lookup s x) nodes ∙ e) in
          (after.0, after.1 ∙ (rests s b e).1)),
    )

-- Once the deadline of an unfinished plan has passed in a run of the state manager, the plan is never
-- done: in no later state, in which no other plan of the books has its channel, has another result that
-- is ok been sent on the channel. Its nodes have no name twice.
pub timed_out :
    (text : Str → Str) (k : Str) (p : TaskPlan) (c : Chan) {m m' : Manager}
    → Reach m
    → lookup k m.plans ≡ some p
    → p.notify ≡ some c
    → Distinct p.nodes
    → all_done m.heap p ≡ false
    → Later (fire_deadline text p m) m'
    → Alone k c m'
    → (all_done m'.heap p ≡ false) × (oks c m'.sent ≡ oks c m.sent)
unfolding all_done apply
timed_out text k p c {m} {m'} r here told u unfinished l alone =
    let m₁ = fire_deadline text p m in
    let r₁ : Reach m₁ = goes_on r (calls (deadline_fires text p) m tt) in
    let here₁ : lookup k m₁.plans ≡ some p =
      ap (lookup k) (apply_books (deadline_fires text p) m).0 ∙ here in
    let dead : Dead p m₁ = λ s b e.
      ap is_live ((fire_deadline_once text p c m s b told e).1 ∙ rw unfinished refl)
      ∙ settled_dead (state_of m b) in
    let rests = (Later-Dead k p (Reach-Good r₁) here₁ dead l).1 in
    let still : all_nodes_done m₁.heap p.nodes ≡ false =
      all_nodes_done_same m.heap m₁.heap p.nodes u
        (λ s b e. (apply-Gentle (deadline_fires text p) m b tt).0)
      ∙ unfinished in
    let ever : all_nodes_done m'.heap p.nodes ≡ false =
      all_nodes_done_same m₁.heap m'.heap p.nodes u (λ s b e. (rests s b e).1) ∙ still in
    let balance = (one_result k p c r₁ l here₁ told u alone).1 in
    let quiet = oks-apply c (deadline_fires text p) m in
    (ever, ground (arith, balance, still, ever, quiet))
