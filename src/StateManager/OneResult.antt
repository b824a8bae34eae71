-- ===== src/StateManager/OneResult.antt =====
-- internal/task_management_layer/task_state_manager/manager.go: the results of a plan over a whole run.
use lucinda.Base.{
  ◌+◌, ◌≤◌, ◌≡◌, subst, if◌then◌else◌, refl, sym, ◌∙◌, ap, Str, str_eq, str_eq_iff, lookup,
  lookup_or, delete, insert, [], lookup-insert, some, arith, Option, Option-cases, Bool-cases, inl,
  inr,
}
use lucinda.Task.{done, TaskPlan, Chan, Heap, TaskNode}
use lucinda.StateManager.Core.{set_state, Error, Manager, is_done, all_done, all_nodes_done}
use lucinda.StateManager.Ingest.{ingest}
use lucinda.StateManager.Complete.{cascade, owning_plan, complete}
use lucinda.StateManager.Graph.{Distinct}
use lucinda.StateManager.Calls.{apply}
use lucinda.StateManager.Keeping.{apply-Gentle}
use lucinda.StateManager.Frames.{apply_books, ingest_books, finish_in_plan_books}
use lucinda.StateManager.Footprint.{ingest-Misses}
use lucinda.StateManager.Progress.{complete_running}
use lucinda.StateManager.Books.{Good}
use lucinda.StateManager.Completing.{owning_plan_found, complete_splits, complete_unowned}
use lucinda.StateManager.Traces.{
  Step, allocates, ingests, completes, calls, Reach, Reach-Good, Step-Good,
}
use lucinda.StateManager.Reports.{oks, ingest_sent, oks-apply}
use lucinda.StateManager.Reporting.{ended, Balanced, Alone, quiet-Balanced, complete-Balanced}

-- The plan stays in the books, with the nodes and the channel that it has.
abbrev pub Stays : Str → TaskPlan → Manager → Type 0
Stays k p m =
    (q : TaskPlan) × (lookup k m.plans ≡ some q) × (q.nodes ≡ p.nodes) × (q.notify ≡ p.notify)

complete-Stays :
    (id output k : Str) (p : TaskPlan) (m : Manager)
    → Good m
    → lookup k m.plans ≡ some p
    → Stays k p (complete id output m).0
unfolding set_state
complete-Stays id output k p m g e = elim (complete_splits id output m) [
  | inl same ↦ (p, ap (λ (x : Manager). lookup k x.plans) same ∙ e, refl, refl)
  | inr (a, at, r) ↦ elim (Option-cases (owning_plan id m.plans)) [
    | inl gone ↦ (
      p,
      ap (λ (x : Manager). lookup k x.plans) (complete_unowned id output a m at r gone) ∙ e,
      refl,
      refl,
    )
    | inr ((j, q), owns) ↦
        let m₁ = set_state a done (record m { claimed = delete id m.claimed }) in
        let nums = (cascade q.nodes (lookup_or [] id q.successors) (m₁, q.predecessor_nums)).1 in
        let q' : TaskPlan = record q { predecessor_nums = nums } in
        let found = (owning_plan_found id j q m.plans g.distinct owns).0 in
        let entered : (complete id output m).0.plans ≡ insert j q' m.plans =
          ap (λ (x : Manager × Option Error). x.0.plans)
            (complete_running id output j q a m at r owns)
          ∙ (finish_in_plan_books j id output q m₁).0 in
        elim (Bool-cases (str_eq j k)) [
          | inl eq ↦
              let same : q ≡ p = ground (arith, str_eq_iff j k, eq, found, e) in
              (
                q',
                ap (lookup k) entered ∙ lookup-insert j k q' m.plans ∙ ground (arith, eq),
                ap (λ (x : TaskPlan). x.nodes) same,
                ap (λ (x : TaskPlan). x.notify) same,
              )
          | inr ne ↦ (
            p,
            ap (lookup k) entered ∙ lookup-insert j k q' m.plans ∙ ground (arith, ne, e),
            refl,
            refl,
          )
        ]
  ]
]

pub Step-Stays :
    (k : Str) (p : TaskPlan) {m m' : Manager}
    → Good m
    → lookup k m.plans ≡ some p
    → Step m m'
    → Stays k p m'
Step-Stays k p g e (allocates h m same) = (p, e, refl, refl)
Step-Stays k p g e (ingests q now m w f) = (
  p,
  ap (lookup k) (ingest_books q now m f.new_id).0
      ∙ lookup-insert q.id k q m.plans
      ∙ ground (arith, str_eq_iff q.id k, f.new_id, e),
  refl,
  refl,
)
Step-Stays k p g e (completes id output m) = complete-Stays id output k p m g e
Step-Stays k p g e (calls c m ok) = (p, ap (lookup k) (apply_books c m).0 ∙ e, refl, refl)

Step-Balanced :
    (k : Str) (p : TaskPlan) (c : Chan) {m m' : Manager}
    → Good m
    → lookup k m.plans ≡ some p
    → p.notify ≡ some c
    → Distinct p.nodes
    → Alone k c m
    → Step m m'
    → Balanced c p m m'
Step-Balanced k p c g e told u alone (allocates h m same) =
    quiet-Balanced c p m (record m { heap = h }) u refl
      (λ s b at. ap (λ (n : TaskNode). is_done n.state) (same s b (g.registered k p s b e at)))
Step-Balanced k p c g e told u alone (ingests q now m w f) =
    quiet-Balanced c p m (ingest q now m).0 u (ap (oks c) (ingest_sent q now m)) (λ s b at.
      ap is_done (
        ingest-Misses q now m b f.new_id f.names
          (λ t there. f.new_nodes t s b there (g.registered k p s b e at))))
Step-Balanced k p c g e told u alone (completes id output m) =
    complete-Balanced k p c m g e told u alone id output
Step-Balanced k p c g e told u alone (calls o m ok) =
    quiet-Balanced c p m (apply o m).0 u (oks-apply c o m) (λ s b at. (apply-Gentle o m b ok).0)

-- A later state of a run.
pub data Later (m : Manager) : Manager → Type 0 where
  at_once : Later m m
  next : {m' m'' : Manager} → Later m m' → Step m' m'' → Later m m''

pub Later-Good : {m m' : Manager} → Good m → Later m m' → Good m'
Later-Good g at_once = g
Later-Good g (next l s) = Step-Good s (Later-Good g l)

earlier-Alone :
    (k : Str) (c : Chan) {m m' : Manager} → Good m → Step m m' → Alone k c m' → Alone k c m
earlier-Alone k c g s alone j q e told =
    let (q', e', nodes, same) = Step-Stays j q g e s in alone j q' e' (same ∙ told)

ended_nodes : (h : Heap) (p q : TaskPlan) → q.nodes ≡ p.nodes → ended h q ≡ ended h p
unfolding all_done
ended_nodes h p q same = ap (λ ns. if all_nodes_done h ns then 1 else 0) same

Later-Balanced :
    (k : Str) (p : TaskPlan) (c : Chan) {m m' : Manager}
    → Good m
    → lookup k m.plans ≡ some p
    → p.notify ≡ some c
    → Distinct p.nodes
    → Later m m'
    → Alone k c m'
    → Stays k p m' × Balanced c p m m'
Later-Balanced k p c g e told u at_once alone = ((p, e, refl, refl), (refl, omega arith))
Later-Balanced k p c {m} g e told u (next {m' = m₁} {m'' = m'} l s) alone =
    let g₁ = Later-Good g l in
    let one = earlier-Alone k c g₁ s alone in
    let ((q, e₁, nodes, same), (before, more)) = Later-Balanced k p c g e told u l one in
    let (q', e', nodes', same') = Step-Stays k q g₁ e₁ s in
    let (after, again) =
      Step-Balanced k q c g₁ e₁ (same ∙ told) (subst (λ x. Distinct x) (sym nodes) u) one s in
    (
      (q', e', nodes' ∙ nodes, same' ∙ same),
      (
        omega (arith, before, after, ended_nodes m₁.heap p q nodes, ended_nodes m'.heap p q nodes),
        omega (arith, more, again),
      ),
    )

-- From any state of a run of the state manager to any later one, in which no other plan of the books has
-- the channel of a plan that has no name twice, the results that are ok on the channel become one more
-- if the plan was not done and then is, and else are as many as before; and a plan that was done is
-- done. The plan stays in the books with its nodes and its channel.
pub one_result :
    (k : Str) (p : TaskPlan) (c : Chan) {m m' : Manager}
    → Reach m
    → Later m m'
    → lookup k m.plans ≡ some p
    → p.notify ≡ some c
    → Distinct p.nodes
    → Alone k c m'
    → Stays k p m'
      × (oks c m'.sent + ended m.heap p ≡ oks c m.sent + ended m'.heap p)
      × (ended m.heap p ≤ ended m'.heap p)
one_result k p c {m} {m'} r l e told u alone =
    let (stays, (balance, more)) = Later-Balanced k p c (Reach-Good r) e told u l alone in
    (stays, balance, omega (arith, balance, more))
