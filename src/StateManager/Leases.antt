-- ===== src/StateManager/Leases.antt =====
-- internal/task_management_layer/task_state_manager/manager.go: the protocol of leases, and the life
-- of one node.
use lucinda.Base.{
  ◌≡◌, Str, str_eq_refl, Map, lookup, insert, delete, lookup-insert, lookup-delete, none, some,
  ◌==◌, if◌then◌else◌, arith, ◌↔◌, ℤ, add64,
}
use lucinda.Task.{ready, claimed, running, Addr}
use lucinda.StateManager.Core.{wrong_state, Manager, state_of}
use lucinda.StateManager.Lifecycle.{set_lease, claim, start, abandon, fire_lease}
use lucinda.StateManager.Complete.{complete}

claim_needs_ready :
    (id peer : Str) (lease now : ℤ) (m : Manager)
    → (claim id peer lease now m).1 ≡ none
    → (a : Addr) × (lookup id m.nodes ≡ some a) × (state_of m a ≡ ready)
unfolding claim
claim_needs_ready id peer lease now m h = ground arith

claim_of_ready :
    (id peer : Str) (lease now : ℤ) (m : Manager)
    → (a : Addr) × (lookup id m.nodes ≡ some a) × (state_of m a ≡ ready)
    → (claim id peer lease now m).1 ≡ none
unfolding claim
claim_of_ready id peer lease now m (a, e, r) = rw (e, r, claim)

-- `Claim` succeeds exactly on a registered node that is Ready.
pub claim_iff :
    (id peer : Str) (lease now : ℤ) (m : Manager)
    → ((claim id peer lease now m).1 ≡ none)
      ↔ ((a : Addr) × (lookup id m.nodes ≡ some a) × (state_of m a ≡ ready))
claim_iff id peer lease now m =
    (claim_needs_ready id peer lease now m, claim_of_ready id peer lease now m)

-- A successful claim records the peer and the end of the lease on the node, and nothing else on it;
-- every other node is as it was.
pub claim_effect :
    (id peer : Str) (lease now : ℤ) (m : Manager) (a b : Addr)
    → lookup id m.nodes ≡ some a
    → state_of m a ≡ ready
    → (claim id peer lease now m).0.heap b ≡ (
        if a == b
        then record (m.heap a) { state = claimed; claimed_by = peer; expires_at = add64 now lease }
        else m.heap b)
unfolding claim set_lease
claim_effect id peer lease now m a b e r = rw (e, r, claim)

-- The watchdog of an earlier claim does not know whose lease it watches: where a node was claimed,
-- abandoned and claimed again, the timer of the first claim takes the node from the second peer,
-- whatever time the second lease has left.
pub stale_watchdog :
    (id peer other : Str) (lease now lease' now' : ℤ) (m : Manager) (a : Addr)
    → lookup id m.nodes ≡ some a
    → state_of m a ≡ ready
    → let m₁ = (claim id peer lease now m).0 in
      let m₂ = (claim id other lease' now' (abandon id m₁).0).0 in
      let m₃ = fire_lease id m₂ in
      (state_of m₂ a ≡ claimed)
      × (lookup id m₂.claimed ≡ some other)
      × (state_of m₃ a ≡ ready)
      × (lookup id m₃.claimed ≡ none)
unfolding claim abandon fire_lease
stale_watchdog id peer other lease now lease' now' m a e r =
    let none_left : Map Str = delete id (insert id peer m.claimed) in
    ground (
      arith,
      str_eq_refl id,
      lookup-insert id id other none_left,
      lookup-delete id id (insert id other none_left),
    )

-- The way of a node from Ready: neither `Start` nor `Complete` can be called too early, each leads
-- to the next state, and the claim is remembered until the node completes.
pub life_of_node :
    (id peer output : Str) (lease now : ℤ) (m : Manager) (a : Addr)
    → lookup id m.nodes ≡ some a
    → state_of m a ≡ ready
    → let m₁ = (claim id peer lease now m).0 in
      let m₂ = (start id m₁).0 in
      (state_of m₁ a ≡ claimed)
      × (state_of m₂ a ≡ running)
      × (lookup id m₂.claimed ≡ some peer)
      × ((start id m).1 ≡ some (wrong_state id ready))
      × ((complete id output m₁).1 ≡ some (wrong_state id claimed))
      × ((complete id output m₂).1 ≡ none)
unfolding claim start complete
life_of_node id peer output lease now m a e r =
    ground (arith, str_eq_refl id, lookup-insert id id peer m.claimed)
