-- ===== src/StateManager/Holding.antt =====
-- internal/task_management_layer/task_state_manager/manager.go: a claim while other calls go on.
use lucinda.Base.{
  ◌≡◌, refl, ◌∙◌, ap, Str, str_eq_refl, str_eq_iff, Map, lookup, lookup_or, delete, lookup-insert,
  lookup-delete, List, [], ◌∷◌, some, arith, ℤ, Option-cases, inl, inr,
}
use lucinda.Task.{ready, claimed, done, TaskPlan, Addr}
use lucinda.StateManager.Core.{already_claimed, Manager, state_of, set_state, send, publish}
use lucinda.StateManager.Lifecycle.{claim, start, fail, abandon, reopen, fire_lease, set_lease}
use lucinda.StateManager.Complete.{visit_successor, cascade, finish_in_plan, owning_plan, complete}
use lucinda.StateManager.Calls.{
  Call, claims, starts, fails, abandons, disposes, lease_fires, deadline_fires, apply,
}

-- The books of the nodes: the registered ones, and who claimed which.
abbrev SameClaims : Manager → Manager → Type 0
SameClaims m m' = (m'.claimed ≡ m.claimed) × (m'.nodes ≡ m.nodes)

visit_successor_claims :
    (ns : Map Addr) (s : Str) (m : Manager) (nums : Map ℤ)
    → SameClaims m (visit_successor ns s (m, nums)).0
unfolding visit_successor set_state publish
visit_successor_claims ns s m nums = ground arith

cascade_claims :
    (ns : Map Addr) (ss : List Str) (m : Manager) (nums : Map ℤ)
    → SameClaims m (cascade ns ss (m, nums)).0
unfolding cascade
cascade_claims ns [] m nums = (refl, refl)
cascade_claims ns (s ∷ rest) m nums =
    let (m₁, nums₁) = visit_successor ns s (m, nums) in
    let first = visit_successor_claims ns s m nums in
    let others = cascade_claims ns rest m₁ nums₁ in (others.0 ∙ first.0, others.1 ∙ first.1)

finish_in_plan_claims :
    (k : Str) (p : TaskPlan) (id output : Str) (m : Manager)
    → SameClaims m (finish_in_plan k p id output m)
unfolding finish_in_plan send
finish_in_plan_claims k p id output m =
    ground (arith, cascade_claims p.nodes (lookup_or [] id p.successors) m p.predecessor_nums)

-- `Complete` forgets the claim of the node that it completes, and no other.
complete_claims :
    (t output : Str) (m : Manager)
    → ((complete t output m).0.nodes ≡ m.nodes)
      × ((id : Str) (a : Addr)
          → lookup id m.nodes ≡ some a
          → state_of m a ≡ claimed
          → lookup id (complete t output m).0.claimed ≡ lookup id m.claimed)
unfolding complete set_state
complete_claims t output m = elim (Option-cases (owning_plan t m.plans)) [
  | inl gone ↦ (
    ground (arith, gone),
    (λ id a e s. ground (arith, gone, e, s, str_eq_iff t id, lookup-delete t id m.claimed)),
  )
  | inr ((k, p), found) ↦
      let same : (c : Addr)
          → SameClaims (record (set_state c done m) { claimed = delete t m.claimed })
              (finish_in_plan k p t output
                (record (set_state c done m) { claimed = delete t m.claimed })) =
        λ c.
          finish_in_plan_claims k p t output
            (record (set_state c done m) { claimed = delete t m.claimed }) in
      elim (Option-cases (lookup t m.nodes)) [
        | inl unknown ↦ (ground (arith, unknown), (λ id a e s. ground (arith, unknown)))
        | inr (c, at) ↦ (
          ground (arith, found, at, same c),
          (λ id a e s.
              ground
                (arith, found, at, e, s, same c, str_eq_iff t id, lookup-delete t id m.claimed)),
        )
      ]
]

-- A call on one node, or the timer of its lease.
abbrev pub OnNode : Call → Type 0
OnNode (disposes id) = ⊥
OnNode (deadline_fires text p) = ⊥
OnNode _ = Unit

-- The states that `Claim`, `Start`, `Complete`, `Failed`, `Abandon` and the timers of leases, on any
-- nodes, lead to, with a node that is Claimed in all of them.
pub data Meanwhile (a : Addr) (m : Manager) : Manager → Type 0 where
  since : Meanwhile a m m
  called :
      {m' : Manager} (c : Call)
      → Meanwhile a m m'
      → OnNode c
      → state_of (apply c m').0 a ≡ claimed
      → Meanwhile a m (apply c m').0
  completed :
      {m' : Manager} (t output : Str)
      → Meanwhile a m m'
      → state_of (complete t output m').0 a ≡ claimed
      → Meanwhile a m (complete t output m').0

-- The claim of a peer on a node.
pub record Holds (id peer : Str) (a : Addr) (m : Manager) : Type 0 where
  pub at : lookup id m.nodes ≡ some a
  pub is_claimed : state_of m a ≡ claimed
  pub by : lookup id m.claimed ≡ some peer

apply-Holds :
    (id peer : Str) (a : Addr) (c : Call) (m : Manager)
    → OnNode c
    → Holds id peer a m
    → state_of (apply c m).0 a ≡ claimed
    → Holds id peer a (apply c m).0
unfolding apply claim set_lease start set_state fail abandon fire_lease reopen publish
apply-Holds id peer a (claims t p l n) m k h s = record {
  at = ground (arith, h.at);
  is_claimed = s;
  by = ground (arith, h.at, h.is_claimed, h.by, str_eq_iff t id, lookup-insert t id p m.claimed);
}
apply-Holds id peer a (starts t) m k h s = record {
  at = ground (arith, h.at);
  is_claimed = s;
  by = ground (arith, h.by);
}
apply-Holds id peer a (fails t) m k h s = record {
  at = ground (arith, h.at);
  is_claimed = s;
  by = ground (arith, h.at, h.by, str_eq_iff t id, lookup-delete t id m.claimed);
}
apply-Holds id peer a (abandons t) m k h s = record {
  at = ground (arith, h.at);
  is_claimed = s;
  by = ground (arith, h.at, h.by, str_eq_iff t id, lookup-delete t id m.claimed);
}
apply-Holds id peer a (disposes t) m k h s = absurd k
apply-Holds id peer a (deadline_fires text p) m k h s = absurd k
apply-Holds id peer a (lease_fires t) m k h s = record {
  at = ground (arith, h.at);
  is_claimed = s;
  by = ground (arith, h.at, h.by, str_eq_iff t id, lookup-delete t id m.claimed);
}

Meanwhile-Holds :
    (id peer : Str) (a : Addr) {m m' : Manager}
    → Holds id peer a m
    → Meanwhile a m m'
    → Holds id peer a m'
Meanwhile-Holds id peer a h since = h
Meanwhile-Holds id peer a h (called {m' = m₁} c w k s) =
    apply-Holds id peer a c m₁ k (Meanwhile-Holds id peer a h w) s
Meanwhile-Holds id peer a h (completed {m' = m₁} t output w s) =
    let h₁ = Meanwhile-Holds id peer a h w in
    let (nodes, claims_kept) = complete_claims t output m₁ in
    record {
      at = ap (lookup id) nodes ∙ h₁.at;
      is_claimed = s;
      by = claims_kept id a h₁.at h₁.is_claimed ∙ h₁.by;
    }

pub claim-Holds :
    (id peer : Str) (lease now : ℤ) (m : Manager) (a : Addr)
    → lookup id m.nodes ≡ some a
    → state_of m a ≡ ready
    → Holds id peer a (claim id peer lease now m).0
unfolding claim set_lease
claim-Holds id peer lease now m a e r = record {
  at = ground (arith, e, r);
  is_claimed = ground (arith, e, r);
  by = ground (arith, e, r, lookup-insert id id peer m.claimed, str_eq_refl id);
}

-- From the claim of a Ready node on, for as long as the node stays Claimed under calls of Claim, Start,
-- Complete, Failed and Abandon on any nodes and the timers of leases, in any number and order, every
-- other claim of it is refused, changes nothing, and its error names the peer that holds the node.
pub claim_exclusive :
    (id peer other : Str) (lease now lease' now' : ℤ) (a : Addr) (m : Manager) {m' : Manager}
    → lookup id m.nodes ≡ some a
    → state_of m a ≡ ready
    → Meanwhile a (claim id peer lease now m).0 m'
    → claim id other lease' now' m' ≡ (m', some (already_claimed id peer))
unfolding claim
claim_exclusive id peer other lease now lease' now' a m {m'} e r w =
    let h = Meanwhile-Holds id peer a (claim-Holds id peer lease now m a e r) w in
    ground (arith, h.at, h.is_claimed, h.by)
