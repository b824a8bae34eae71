-- ===== src/StateManager/Books.antt =====
-- internal/task_management_layer/task_state_manager/manager.go: all plans of a state manager together,
-- and what each call does to them.
use lucinda.Base.{
  ◌≡◌, refl, sym, ◌∙◌, ap, subst, Str, str_eq, str_eq_iff, Map, lookup, lookup-insert, insert, [],
  ◌∷◌, none, some, false, arith, ℤ, Option-cases, Bool-cases, inl, inr, ◌⊎◌,
}
use lucinda.Task.{TaskPlan, Addr}
use lucinda.StateManager.Core.{Manager}
use lucinda.StateManager.Ingest.{ingest}
use lucinda.StateManager.Graph.{Distinct}
use lucinda.StateManager.Cascade.{Injective}
use lucinda.StateManager.Schedule.{Shape, Scheduled}
use lucinda.StateManager.Start.{WellFormed, ingest-Scheduled}
use lucinda.StateManager.Calls.{Call, apply}
use lucinda.StateManager.Keeping.{SparesDone, apply-Scheduled, same_states-Scheduled}
use lucinda.StateManager.Frames.{apply_books, ingest_books}
use lucinda.StateManager.Footprint.{ingest-Misses, Named, lookup-register_nodes}

-- Every plan is under its schedule, its nodes are registered under their names, no two plans share
-- a name, and no two names a node.
pub record Good (m : Manager) : Type 0 where
  pub distinct : Distinct m.plans
  pub one_name : Injective m.nodes
  pub shape : (k : Str) (p : TaskPlan) → lookup k m.plans ≡ some p → Shape p
  pub scheduled : (k : Str) (p : TaskPlan) → lookup k m.plans ≡ some p → Scheduled m.heap p
  pub registered :
      (k : Str) (p : TaskPlan) (s : Str) (b : Addr)
      → lookup k m.plans ≡ some p
      → lookup s p.nodes ≡ some b
      → lookup s m.nodes ≡ some b
  pub apart :
      (k k' : Str) (p p' : TaskPlan) (s : Str) (b b' : Addr)
      → lookup k m.plans ≡ some p
      → lookup k' m.plans ≡ some p'
      → lookup s p.nodes ≡ some b
      → lookup s p'.nodes ≡ some b'
      → k ≡ k'

pub apply-Good : (c : Call) (m : Manager) → SparesDone c m → Good m → Good (apply c m).0
apply-Good c m ok g =
    let (plans, nodes) = apply_books c m in
    let there : (k : Str) (p : TaskPlan)
        → lookup k (apply c m).0.plans ≡ some p
        → lookup k m.plans ≡ some p =
      λ k p e. ap (lookup k) (sym plans) ∙ e in
    record {
      distinct = subst (λ x. Distinct x) (sym plans) g.distinct;
      one_name = subst (λ x. Injective x) (sym nodes) g.one_name;
      shape = λ k p e. g.shape k p (there k p e);
      scheduled = λ k p e. apply-Scheduled c m p ok (g.scheduled k p (there k p e));
      registered = λ k p s b e f. ap (lookup s) nodes ∙ g.registered k p s b (there k p e) f;
      apart = λ k k' p p' s b b' e e' f f'.
          g.apart k k' p p' s b b' (there k p e) (there k' p' e') f f';
    }

lookup-insert_new {ℓ} :
    {V : Type ℓ} (k j : Str) (v w : V) (m : Map V)
    → lookup j (insert k v m) ≡ some w
    → (k ≡ j) × (v ≡ w) ⊎ (str_eq k j ≡ false) × (lookup j m ≡ some w)
lookup-insert_new k j v w m h = elim (Bool-cases (str_eq k j)) [
  | inl e ↦ inl ((str_eq_iff k j).0 e, ground (arith, lookup-insert k j v m, e))
  | inr e ↦ inr (e, ground (arith, lookup-insert k j v m, e))
]

insert-Distinct {ℓ} :
    {V : Type ℓ} (k : Str) (v : V) (m : Map V) → Distinct m → Distinct (insert k v m)
unfolding insert lookup
insert-Distinct k v [] u = (refl, tt)
insert-Distinct k v ((j, w) ∷ rest) u = elim (Bool-cases (str_eq j k)) [
  | inl e ↦ rw e (subst (λ x. lookup x rest ≡ none) ((str_eq_iff j k).0 e) u.0, u.1)
  | inr e ↦ rw e (
    ground (arith, lookup-insert k j v rest, str_eq_iff j k, str_eq_iff k j, u.0),
    insert-Distinct k v rest u.1,
  )
]

-- A plan that is entered, or entered anew, under a key.
module _ (m m' : Manager) (k : Str) (p : TaskPlan) (g : Good m)
    (entered : m'.plans ≡ insert k p m.plans) (one : Injective m'.nodes) (sh : Shape p)
    (v : Scheduled m'.heap p)
    (others : (j : Str) (q : TaskPlan)
      → str_eq k j ≡ false
      → lookup j m.plans ≡ some q
      → Scheduled m'.heap q)
    (kept : (s : Str) (b : Addr) → lookup s m.nodes ≡ some b → lookup s m'.nodes ≡ some b)
    (own : (s : Str) (b : Addr) → lookup s p.nodes ≡ some b → lookup s m'.nodes ≡ some b)
    (alone : (j : Str) (q : TaskPlan) (s : Str) (b b' : Addr)
      → str_eq k j ≡ false
      → lookup j m.plans ≡ some q
      → lookup s p.nodes ≡ some b
      → lookup s q.nodes ≡ some b'
      → ⊥) where
  found :
      (j : Str) (q : TaskPlan)
      → lookup j m'.plans ≡ some q
      → (k ≡ j) × (p ≡ q) ⊎ (str_eq k j ≡ false) × (lookup j m.plans ≡ some q)
  found j q e = lookup-insert_new k j p q m.plans (ap (lookup j) (sym entered) ∙ e)

  found_registered :
      (j : Str) (q : TaskPlan) (s : Str) (b : Addr)
      → lookup j m'.plans ≡ some q
      → lookup s q.nodes ≡ some b
      → lookup s m'.nodes ≡ some b
  found_registered j q s b e f = elim (found j q e) [
    | inl (kj, pq) ↦ own s b (ap (λ (x : TaskPlan). lookup s x.nodes) pq ∙ f)
    | inr (ne, e') ↦ kept s b (g.registered j q s b e' f)
  ]

  found_apart :
      (i j : Str) (q r : TaskPlan) (s : Str) (b b' : Addr)
      → lookup i m'.plans ≡ some q
      → lookup j m'.plans ≡ some r
      → lookup s q.nodes ≡ some b
      → lookup s r.nodes ≡ some b'
      → i ≡ j
  found_apart i j q r s b b' e e' f f' = elim (found i q e) [
    | inl (ki, pq) ↦ elim (found j r e') [
      | inl (kj, pr) ↦ sym ki ∙ kj
      | inr (ne, e₁) ↦
          absurd (alone j r s b b' ne e₁ (ap (λ (x : TaskPlan). lookup s x.nodes) pq ∙ f) f')
    ]
    | inr (ne, e₀) ↦ elim (found j r e') [
      | inl (kj, pr) ↦
          absurd (alone i q s b' b ne e₀ (ap (λ (x : TaskPlan). lookup s x.nodes) pr ∙ f') f)
      | inr (ne', e₁) ↦ g.apart i j q r s b b' e₀ e₁ f f'
    ]
  ]

  pub entered-Good : Good m'
  entered-Good = record {
    distinct = subst (λ x. Distinct x) (sym entered) (insert-Distinct k p m.plans g.distinct);
    one_name = one;
    shape = λ j q e. elim (found j q e) [
      | inl (kj, pq) ↦ subst (λ x. Shape x) pq sh
      | inr (ne, e') ↦ g.shape j q e'
    ];
    scheduled = λ j q e. elim (found j q e) [
      | inl (kj, pq) ↦ subst (λ x. Scheduled m'.heap x) pq v
      | inr (ne, e') ↦ others j q ne e'
    ];
    registered = found_registered;
    apart = found_apart;
  }

-- A plan whose nodes are new to the manager, and stand under the names that they carry.
pub record Fresh (p : TaskPlan) (m : Manager) : Type 0 where
  pub new_id : lookup p.id m.plans ≡ none
  pub names : Distinct p.nodes
  pub named : Named m.heap p.nodes
  pub new_names : (s : Str) (b : Addr) → lookup s p.nodes ≡ some b → lookup s m.nodes ≡ none
  pub new_nodes : (s t : Str) (b : Addr) → lookup s p.nodes ≡ some b → lookup t m.nodes ≡ some b → ⊥

module _ (p : TaskPlan) (now : ℤ) (m : Manager) (w : WellFormed p) (f : Fresh p m)
    (g : Good m) where
  registers :
      (s : Str)
      → lookup s (ingest p now m).0.nodes
        ≡ (elim (lookup s p.nodes) [ none ↦ lookup s m.nodes | some b ↦ some b ])
  registers s =
      ap (lookup s) (ingest_books p now m f.new_id).1
      ∙ lookup-register_nodes p.nodes (record m { plans = insert p.id p m.plans }) s f.names f.named

  origin :
      (s : Str) (b : Addr)
      → lookup s (ingest p now m).0.nodes ≡ some b
      → (lookup s p.nodes ≡ some b) ⊎ (lookup s m.nodes ≡ some b)
  origin s b e = elim (Option-cases (lookup s p.nodes)) [
    | inl none_there ↦ inr (ground (arith, registers s, none_there, e))
    | inr (c, there) ↦ inl (ground (arith, registers s, there, e))
  ]

  ingest_one_name : Injective (ingest p now m).0.nodes
  ingest_one_name s t b e e' = elim (origin s b e) [
    | inl x ↦ elim (origin t b e') [
      | inl y ↦ w.shape.injective s t b x y
      | inr y ↦ absurd (f.new_nodes s t b x y)
    ]
    | inr x ↦ elim (origin t b e') [
      | inl y ↦ absurd (f.new_nodes t s b y x)
      | inr y ↦ g.one_name s t b x y
    ]
  ]

  pub ingest-Good : Good (ingest p now m).0
  ingest-Good =
      entered-Good m (ingest p now m).0 p.id p g (ingest_books p now m f.new_id).0 ingest_one_name
        w.shape (ingest-Scheduled p now m f.new_id w)
        (λ j q ne e.
          same_states-Scheduled m.heap (ingest p now m).0.heap q
            (λ s b at.
              ingest-Misses p now m b f.new_id f.names
                (λ t there. f.new_nodes t s b there (g.registered j q s b e at)))
            (g.scheduled j q e))
        (λ s b e. elim (Option-cases (lookup s p.nodes)) [
          | inl none_there ↦ ground (arith, registers s, none_there, e)
          | inr (c, there) ↦ absurd (ground (arith, f.new_names s c there, e))
        ])
        (λ s b there. ground (arith, registers s, there))
        (λ j q s b b' ne e there at.
          absurd (ground (arith, f.new_names s b there, g.registered j q s b' e at)))
