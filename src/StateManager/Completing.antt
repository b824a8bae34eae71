-- ===== src/StateManager/Completing.antt =====
-- internal/task_management_layer/task_state_manager/manager.go: `Complete` among all plans of a state
-- manager.
use lucinda.Base.{
  ◌≡◌, refl, sym, ◌∙◌, ap, subst, ◌==◌, ==_iff, Str, str_eq, str_eq_iff, str_eq_refl, Map, lookup,
  lookup_or, delete, [], ◌∷◌, Option, none, some, is_some, true, false, arith, ℤ, Option-cases,
  Bool-cases, inl, inr, ◌⊎◌,
}
use lucinda.Task.{NodeState, running, done, TaskPlan, Addr, Heap}
use lucinda.StateManager.Core.{Manager, Error, state_of, set_state, write}
use lucinda.StateManager.Complete.{cascade, owning_plan, finish_in_plan, complete}
use lucinda.StateManager.Graph.{Distinct}
use lucinda.StateManager.Cascade.{Injective}
use lucinda.StateManager.Schedule.{Shape, Scheduled, cascade-Scheduled}
use lucinda.StateManager.Keeping.{same_states-Scheduled}
use lucinda.StateManager.Progress.{complete_running, finish_in_plan_lem}
use lucinda.StateManager.Frames.{finish_in_plan_books}
use lucinda.StateManager.Footprint.{Misses, cascade-Misses}
use lucinda.StateManager.Books.{Good, entered-Good}

pub owning_plan_found :
    (id k : Str) (p : TaskPlan) (ps : Map TaskPlan)
    → Distinct ps
    → owning_plan id ps ≡ some (k, p)
    → (lookup k ps ≡ some p) × (is_some (lookup id p.nodes) ≡ true)
unfolding owning_plan lookup
owning_plan_found id k p [] u h = cc
owning_plan_found id k p ((j, q) ∷ rest) u h = elim (Bool-cases (is_some (lookup id q.nodes))) [
  | inl here ↦ ground (arith, here, h, str_eq_refl j)
  | inr later ↦
      let (e, is) = owning_plan_found id k p rest u.1 (ground (arith, later, h)) in
      (ground (arith, str_eq_iff j k, u.0, e), is)
]

pub owning_plan_missing :
    (id j : Str) (q : TaskPlan) (ps : Map TaskPlan)
    → owning_plan id ps ≡ none
    → lookup j ps ≡ some q
    → lookup id q.nodes ≡ none
unfolding owning_plan lookup
owning_plan_missing id j q [] h e = cc
owning_plan_missing id j q ((k, p) ∷ rest) h e = elim (Bool-cases (is_some (lookup id p.nodes))) [
  | inl here ↦ absurd (ground (arith, here, h))
  | inr later ↦ elim (Bool-cases (str_eq k j)) [
    | inl hit ↦ ground (arith, hit, later, e)
    | inr miss ↦
        owning_plan_missing id j q rest (ground (arith, later, h)) (ground (arith, miss, e))
  ]
]

pub complete_splits :
    (id output : Str) (m : Manager)
    → ((complete id output m).0 ≡ m)
      ⊎ ((a : Addr) × (lookup id m.nodes ≡ some a) × (state_of m a ≡ running))
unfolding complete
complete_splits id output m = ground arith

pub complete_unowned :
    (id output : Str) (a : Addr) (m : Manager)
    → lookup id m.nodes ≡ some a
    → state_of m a ≡ running
    → owning_plan id m.plans ≡ none
    → (complete id output m).0 ≡ set_state a done (record m { claimed = delete id m.claimed })
unfolding complete set_state
complete_unowned id output a m at r owns = rw (at, r, owns, complete) refl

pub set_state_other :
    (a b : Addr) (s : NodeState) (m : Manager)
    → (a ≡ b → ⊥)
    → state_of (set_state a s m) b ≡ state_of m b
unfolding set_state write
set_state_other a b s m ne = elim (Bool-cases (a == b)) [
  | inl hit ↦ absurd (ne ((==_iff a b).0 hit))
  | inr miss ↦ ground (arith, miss)
]

module _ (id output : Str) (a : Addr) (m : Manager) (at : lookup id m.nodes ≡ some a)
    (r : state_of m a ≡ running) (g : Good m) where
  abbrev pub ended : Manager
  ended = set_state a done (record m { claimed = delete id m.claimed })

  -- A node whose plan is not there.
  unowned-Good : owning_plan id m.plans ≡ none → Good ended
  unfolding set_state
  unowned-Good owns = record {
    distinct = g.distinct;
    one_name = g.one_name;
    shape = g.shape;
    scheduled = λ j q e.
        same_states-Scheduled m.heap ended.heap q
          (λ s b f. set_state_other a b done m (λ ab.
            let same : id ≡ s = g.one_name id s b (at ∙ ap some ab) (g.registered j q s b e f) in
            let there : lookup id q.nodes ≡ some b = ap (λ x. lookup x q.nodes) same ∙ f in
            let gone = owning_plan_missing id j q m.plans owns e in cc))
          (g.scheduled j q e);
    registered = g.registered;
    apart = g.apart;
  }

  -- A node of a plan.
  module _ (k : Str) (p : TaskPlan) (owns : owning_plan id m.plans ≡ some (k, p)) where
    abbrev cascaded : Manager × Map ℤ
    cascaded = cascade p.nodes (lookup_or [] id p.successors) (ended, p.predecessor_nums)

    abbrev entered : TaskPlan
    entered = record p { predecessor_nums = cascaded.1 }

    abbrev pub after : Manager
    after = finish_in_plan k p id output ended

    in_books : lookup k m.plans ≡ some p
    in_books = (owning_plan_found id k p m.plans g.distinct owns).0

    pub in_plan : lookup id p.nodes ≡ some a
    in_plan = elim (Option-cases (lookup id p.nodes)) [
      | inl gone ↦
          absurd (ground (arith, (owning_plan_found id k p m.plans g.distinct owns).1, gone))
      | inr (c, there) ↦ there ∙ sym (g.registered k p id c in_books there) ∙ at
    ]

    pub same_heap : after.heap ≡ cascaded.0.heap
    same_heap = (finish_in_plan_lem k id output p ended).0

    pub other_states :
        (j : Str) (q : TaskPlan) (s : Str) (b : Addr)
        → str_eq k j ≡ false
        → lookup j m.plans ≡ some q
        → lookup s q.nodes ≡ some b
        → state_of after b ≡ state_of m b
    other_states j q s b ne e f =
        let miss : Misses p.nodes b = λ t there.
          let same : t ≡ s =
            g.one_name t s b (g.registered k p t b in_books there) (g.registered j q s b e f) in
          let kj =
            g.apart k j p q s b b in_books e (subst (λ x. lookup x p.nodes ≡ some b) same there)
              f in
          ground (arith, str_eq_iff k j, kj, ne) in
        ap (λ (h : Heap). (h b).state) same_heap
        ∙ cascade-Misses p.nodes (lookup_or [] id p.successors) ended p.predecessor_nums b miss
        ∙ set_state_other a b done (record m { claimed = delete id m.claimed })
            (λ ab. miss id (in_plan ∙ ap some ab))

    entered-Shape : Shape entered
    entered-Shape =
        let sh = g.shape k p in_books in
        record { injective = sh.injective; distinct = sh.distinct; small = sh.small }

    owned-Good : Good after
    unfolding set_state
    owned-Good =
        let books = finish_in_plan_books k id output p ended in
        entered-Good m after k entered g books.0 (subst (λ x. Injective x) (sym books.1) g.one_name)
          entered-Shape
          (subst (λ h. Scheduled h entered) (sym same_heap)
            (cascade-Scheduled p (record m { claimed = delete id m.claimed }) id a in_plan r
              (g.shape k p in_books) (g.scheduled k p in_books)))
          (λ j q ne e.
            same_states-Scheduled m.heap after.heap q (λ s b f. other_states j q s b ne e f)
              (g.scheduled j q e))
          (λ s b e. ap (lookup s) books.1 ∙ e)
          (λ s b f. ap (lookup s) books.1 ∙ g.registered k p s b in_books f)
          (λ j q s b b' ne e f f'.
            ground (arith, str_eq_iff k j, g.apart k j p q s b b' in_books e f f', ne))

pub complete-Good : (id output : Str) (m : Manager) → Good m → Good (complete id output m).0
complete-Good id output m g = elim (complete_splits id output m) [
  | inl same ↦ subst (λ x. Good x) (sym same) g
  | inr (a, at, r) ↦ elim (Option-cases (owning_plan id m.plans)) [
    | inl gone ↦
        subst (λ x. Good x) (sym (complete_unowned id output a m at r gone))
          (unowned-Good id output a m at r g gone)
    | inr ((k, p), owns) ↦
        subst (λ x. Good x)
          (sym (
            ap (λ (x : Manager × Option Error). x.0)
              (complete_running id output k p a m at r owns)))
          (owned-Good id output a m at r g k p owns)
  ]
]
