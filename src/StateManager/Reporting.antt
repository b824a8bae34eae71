-- ===== src/StateManager/Reporting.antt =====
-- internal/task_management_layer/task_state_manager/manager.go: the results that a plan reports in the
-- course of a run.
use lucinda.Base.{
  ℕ, ◌+◌, ◌≤◌, ◌≡◌, refl, sym, ◌∙◌, ap, subst, Str, str_eq, str_eq_iff, Map, lookup, delete, [],
  ◌∷◌, Option, none, some, false, ◌==◌, ==_iff, if◌then◌else◌, arith, Option-cases, Bool-cases, inl,
  inr,
}
use lucinda.Task.{done, running, TaskPlan, PlanResult, plan_ok, Addr, Chan, Heap}
use lucinda.StateManager.Core.{
  Error, Manager, state_of, is_done, all_nodes_done, all_done, set_state,
}
use lucinda.StateManager.Complete.{finish_in_plan, owning_plan, complete}
use lucinda.StateManager.Graph.{Distinct}
use lucinda.StateManager.Progress.{complete_running}
use lucinda.StateManager.Books.{Good}
use lucinda.StateManager.Completing.{
  owning_plan_found, owning_plan_missing, complete_splits, complete_unowned, set_state_other,
  in_plan, other_states,
}
use lucinda.StateManager.Reports.{oks, adds, oks-finish_in_plan}

pub all_nodes_done_same :
    (h h' : Heap) (ns : Map Addr)
    → Distinct ns
    → ((s : Str) (b : Addr) → lookup s ns ≡ some b → is_done (h' b).state ≡ is_done (h b).state)
    → all_nodes_done h' ns ≡ all_nodes_done h ns
unfolding all_nodes_done lookup
all_nodes_done_same h h' [] u same = refl
all_nodes_done_same h h' ((k, a) ∷ rest) u same =
    let here = same k a (ground (arith, str_eq_iff k k)) in
    let later =
      all_nodes_done_same h h' rest u.1
        (λ s b e. same s b (ground (arith, str_eq_iff k s, u.0, e))) in
    ground (arith, here, later)

not_all_done :
    (h : Heap) (ns : Map Addr) (s : Str) (b : Addr)
    → lookup s ns ≡ some b
    → is_done (h b).state ≡ false
    → all_nodes_done h ns ≡ false
unfolding all_nodes_done lookup
not_all_done h [] s b e n = cc
not_all_done h ((k, a) ∷ rest) s b e n = elim (Bool-cases (str_eq k s)) [
  | inl hit ↦ ground (arith, hit, e, n)
  | inr miss ↦ ground (arith, not_all_done h rest s b (ground (arith, miss, e)) n)
]

-- 1 where the plan is done.
abbrev pub ended : Heap → TaskPlan → ℕ
ended h p = if all_done h p then 1 else 0

-- The results that are ok, against the end of the plan.
abbrev pub Balanced : Chan → TaskPlan → Manager → Manager → Type 0
Balanced c p m m' =
    (oks c m'.sent + ended m.heap p ≡ oks c m.sent + ended m'.heap p)
    × (oks c m.sent ≤ oks c m'.sent)

pub quiet-Balanced :
    (c : Chan) (p : TaskPlan) (m m' : Manager)
    → Distinct p.nodes
    → oks c m'.sent ≡ oks c m.sent
    → ((s : Str) (b : Addr)
        → lookup s p.nodes ≡ some b
        → is_done (state_of m' b) ≡ is_done (state_of m b))
    → Balanced c p m m'
unfolding all_done
quiet-Balanced c p m m' u sent same =
    (ground (arith, sent, all_nodes_done_same m.heap m'.heap p.nodes u same), omega (arith, sent))

-- No other plan in the books reports to the channel.
abbrev pub Alone : Str → Chan → Manager → Type 0
Alone k c m = (j : Str) (q : TaskPlan) → lookup j m.plans ≡ some q → q.notify ≡ some c → k ≡ j

module _ (k : Str) (p : TaskPlan) (c : Chan) (m : Manager) (g : Good m)
    (here : lookup k m.plans ≡ some p) (told : p.notify ≡ some c) (u : Distinct p.nodes)
    (alone : Alone k c m) where
  -- A node that no plan has.
  unowned-Balanced :
      (id output : Str) (a : Addr)
      → lookup id m.nodes ≡ some a
      → owning_plan id m.plans ≡ none
      → Balanced c p m (set_state a done (record m { claimed = delete id m.claimed }))
  unfolding set_state
  unowned-Balanced id output a at gone =
      let m' = set_state a done (record m { claimed = delete id m.claimed }) in
      quiet-Balanced c p m m' u refl (λ s b e. ap is_done (
        set_state_other a b done m (λ ab.
          let same : id ≡ s = g.one_name id s b (at ∙ ap some ab) (g.registered k p s b here e) in
          let there : lookup id p.nodes ≡ some b = ap (λ x. lookup x p.nodes) same ∙ e in
          let missing = owning_plan_missing id k p m.plans gone here in cc)))

  -- A node of another plan.
  other-Balanced :
      (id output : Str) (a : Addr) (j : Str) (q : TaskPlan)
      → lookup id m.nodes ≡ some a
      → state_of m a ≡ running
      → owning_plan id m.plans ≡ some (j, q)
      → str_eq j k ≡ false
      → Balanced c p m (
          finish_in_plan j q id output
            (set_state a done (record m { claimed = delete id m.claimed })))
  unfolding set_state
  other-Balanced id output a j q at r owns ne =
      let m₁ = set_state a done (record m { claimed = delete id m.claimed }) in
      let found = (owning_plan_found id j q m.plans g.distinct owns).0 in
      let result : PlanResult = record { status = plan_ok; text = output } in
      let none_added : adds c q.notify result ≡ 0 = elim (Option-cases q.notify) [
        | inl e ↦ ground (arith, e)
        | inr (d, e) ↦ elim (Bool-cases (d == c)) [
          | inl hit ↦ absurd (
              ground
                (arith, str_eq_iff j k, ne, alone j q found (e ∙ ap some ((==_iff d c).0 hit))))
          | inr miss ↦ ground (arith, e, miss)
        ]
      ] in
      quiet-Balanced c p m (finish_in_plan j q id output m₁) u
        (ground (arith, oks-finish_in_plan c j id output q m₁, none_added))
        (λ s b e. ap is_done (other_states id output a m at r g j q owns k p s b ne here e))

-- A node of the plan itself.
own-Balanced :
    (c : Chan) (m : Manager) (id output : Str) (a : Addr) (j : Str) (q : TaskPlan)
    → Good m
    → q.notify ≡ some c
    → lookup id m.nodes ≡ some a
    → state_of m a ≡ running
    → owning_plan id m.plans ≡ some (j, q)
    → Balanced c q m (
        finish_in_plan j q id output
          (set_state a done (record m { claimed = delete id m.claimed })))
unfolding set_state all_done
own-Balanced c m id output a j q g told at r owns =
    let m₁ = set_state a done (record m { claimed = delete id m.claimed }) in
    let before : all_done m.heap q ≡ false =
      not_all_done m.heap q.nodes id a (in_plan id output a m at r g j q owns) (ap is_done r) in
    let sent = oks-finish_in_plan c j id output q m₁ in
    (ground (arith, sent, told, ==_iff c c, before), omega (arith, sent))

pub complete-Balanced :
    (k : Str) (p : TaskPlan) (c : Chan) (m : Manager)
    → Good m
    → lookup k m.plans ≡ some p
    → p.notify ≡ some c
    → Distinct p.nodes
    → Alone k c m
    → (id output : Str) → Balanced c p m (complete id output m).0
complete-Balanced k p c m g here told u alone id output = elim (complete_splits id output m) [
  | inl same ↦ subst (λ x. Balanced c p m x) (sym same) (refl, omega arith)
  | inr (a, at, r) ↦ elim (Option-cases (owning_plan id m.plans)) [
    | inl gone ↦
        subst (λ x. Balanced c p m x) (sym (complete_unowned id output a m at r gone))
          (unowned-Balanced k p c m g here told u alone id output a at gone)
    | inr ((j, q), owns) ↦
        subst (λ x. Balanced c p m x)
          (sym (
            ap (λ (x : Manager × Option Error). x.0)
              (complete_running id output j q a m at r owns)))
          (elim (Bool-cases (str_eq j k)) [
            | inr ne ↦ other-Balanced k p c m g here told u alone id output a j q at r owns ne
            | inl eq ↦
                let found = (owning_plan_found id j q m.plans g.distinct owns).0 in
                let same : q ≡ p = ground (arith, str_eq_iff j k, eq, found, here) in
                let m' =
                  finish_in_plan j q id output
                    (set_state a done (record m { claimed = delete id m.claimed })) in
                subst (λ x. Balanced c x m m') same
                  (own-Balanced c m id output a j q g (ap (λ (x : TaskPlan). x.notify) same ∙ told)
                    at r owns)
          ])
  ]
]
