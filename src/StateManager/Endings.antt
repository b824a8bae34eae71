-- ===== src/StateManager/Endings.antt =====
-- internal/task_management_layer/task_state_manager/manager.go: disposal, the deadline, and expired
-- leases.
use lucinda.Base.{
  ◌≡◌, refl, sym, ap, ==_iff, ◌∙◌, Str, str_eq, Map, lookup, [], ◌∷◌, ◌++◌, none, some, true, false,
  ◌==◌, if◌then◌else◌, arith, Bool-cases, inl, inr, ℤ, pos,
}
use lucinda.Task.{
  NodeState, disposed, claimed, TaskNode, TaskPlan, PlanResult, plan_timeout, Addr, Chan, Heap,
}
use lucinda.StateManager.Core.{Manager, state_of, is_done, all_nodes_done, all_done, send}
use lucinda.StateManager.Closing.{dispose_node, dispose_nodes, dispose, fire_deadline}
use lucinda.StateManager.Queries.{is_expired, expired_in, expired}
use mathlib.Core.List.{Memᴰ}
use lucinda.Base.{All, ltb_ℤ}
use lucinda.StateManager.Calls.{is_live}

-- Disposal

dispose_node_same :
    (a b : Addr) (m : Manager)
    → (is_live (state_of (dispose_node a m) b) ≡ (if a == b then false else is_live (state_of m b)))
      × (is_done (state_of (dispose_node a m) b) ≡ is_done (state_of m b))
unfolding dispose_node
dispose_node_same a b m = ground arith

pub dispose_nodes_done :
    (ns : Map Addr) (b : Addr) (m : Manager)
    → is_done (state_of (dispose_nodes ns m) b) ≡ is_done (state_of m b)
unfolding dispose_nodes
dispose_nodes_done [] b m = refl
dispose_nodes_done ((k, a) ∷ rest) b m =
    dispose_nodes_done rest b (dispose_node a m) ∙ (dispose_node_same a b m).1

dispose_nodes_dead :
    (ns : Map Addr) (b : Addr) (m : Manager)
    → is_live (state_of m b) ≡ false
    → is_live (state_of (dispose_nodes ns m) b) ≡ false
unfolding dispose_nodes
dispose_nodes_dead [] b m h = h
dispose_nodes_dead ((k, a) ∷ rest) b m h =
    dispose_nodes_dead rest b (dispose_node a m) (ground (arith, dispose_node_same a b m))

pub dispose_nodes_settle :
    (ns : Map Addr) (s : Str) (b : Addr) (m : Manager)
    → lookup s ns ≡ some b
    → is_live (state_of (dispose_nodes ns m) b) ≡ false
unfolding dispose_nodes lookup
dispose_nodes_settle [] s b m h = cc
dispose_nodes_settle ((k, a) ∷ rest) s b m h = elim (Bool-cases (str_eq k s)) [
  | inl e ↦ dispose_nodes_dead rest b (dispose_node a m) (ground (arith, dispose_node_same a b m))
  | inr e ↦ dispose_nodes_settle rest s b (dispose_node a m) (ground arith)
]

-- What disposal makes of a state.
abbrev pub settled : NodeState → NodeState
settled s = if is_live s then disposed else s

pub settled_dead : (s : NodeState) → is_live (settled s) ≡ false
settled_dead s = ground arith

dispose_node_state :
    (a b : Addr) (m : Manager)
    → state_of (dispose_node a m) b ≡ (if a == b then settled (state_of m b) else state_of m b)
unfolding dispose_node
dispose_node_state a b m = ground arith

settled_twice : (s : NodeState) → settled (settled s) ≡ settled s
settled_twice s = ground arith

dispose_nodes_keep :
    (ns : Map Addr) (b : Addr) (m : Manager)
    → settled (state_of m b) ≡ state_of m b
    → state_of (dispose_nodes ns m) b ≡ state_of m b
unfolding dispose_nodes
dispose_nodes_keep [] b m h = refl
dispose_nodes_keep ((k, a) ∷ rest) b m h =
    let one : state_of (dispose_node a m) b ≡ state_of m b =
      dispose_node_state a b m
      ∙ elim (Bool-cases (a == b)) [ inl e ↦ rw e h | inr e ↦ rw e refl ] in
    dispose_nodes_keep rest b (dispose_node a m) (ap settled one ∙ h ∙ sym one) ∙ one

dispose_nodes_state :
    (ns : Map Addr) (s : Str) (b : Addr) (m : Manager)
    → lookup s ns ≡ some b
    → state_of (dispose_nodes ns m) b ≡ settled (state_of m b)
unfolding dispose_nodes lookup
dispose_nodes_state [] s b m h = cc
dispose_nodes_state ((k, a) ∷ rest) s b m h = elim (Bool-cases (a == b)) [
  | inl e ↦
      let one : state_of (dispose_node a m) b ≡ settled (state_of m b) =
        dispose_node_state a b m ∙ rw e refl in
      dispose_nodes_keep rest b (dispose_node a m)
        (ap settled one ∙ settled_twice (state_of m b) ∙ sym one)
      ∙ one
  | inr e ↦
      let one : state_of (dispose_node a m) b ≡ state_of m b =
        dispose_node_state a b m ∙ rw e refl in
      let there : lookup s rest ≡ some b = ground (arith, ==_iff a b) in
      dispose_nodes_state rest s b (dispose_node a m) there ∙ ap settled one
]

pub dispose_nodes_quiet :
    (ns : Map Addr) (m : Manager)
    → ((dispose_nodes ns m).published ≡ m.published) × ((dispose_nodes ns m).sent ≡ m.sent)
unfolding dispose_nodes dispose_node
dispose_nodes_quiet [] m = (refl, refl)
dispose_nodes_quiet ((k, a) ∷ rest) m = ground (arith, dispose_nodes_quiet rest (dispose_node a m))

-- `Dispose` of a known plan succeeds; no node of the plan can still run after it, and the done
-- ones stay done. It publishes nothing and, though it ends the plan, sends no result.
pub dispose_settles :
    (id : Str) (p : TaskPlan) (m : Manager) (s : Str) (b : Addr)
    → lookup id m.plans ≡ some p
    → lookup s p.nodes ≡ some b
    → let m' = (dispose id m).0 in
      ((dispose id m).1 ≡ none)
      × (is_live (state_of m' b) ≡ false)
      × (is_done (state_of m' b) ≡ is_done (state_of m b))
      × (m'.published ≡ m.published)
      × (m'.sent ≡ m.sent)
unfolding dispose
dispose_settles id p m s b e at =
    rw (e, dispose)
      (
        refl,
        dispose_nodes_settle p.nodes s b m at,
        dispose_nodes_done p.nodes b m,
        (dispose_nodes_quiet p.nodes m).0,
        (dispose_nodes_quiet p.nodes m).1,
      )

-- The deadline

pub all_nodes_done_ext :
    (h h' : Heap) (ns : Map Addr)
    → ((b : Addr) → is_done (h' b).state ≡ is_done (h b).state)
    → all_nodes_done h' ns ≡ all_nodes_done h ns
unfolding all_nodes_done
all_nodes_done_ext h h' [] e = refl
all_nodes_done_ext h h' ((k, a) ∷ rest) e = ground (arith, e a, all_nodes_done_ext h h' rest e)

-- When the deadline of a plan with a channel passes, a finished plan is left alone. Of any other
-- plan every node that could still run, and none else, becomes Disposed, exactly one result, the
-- timeout, is sent, and the plan goes on being unfinished.
pub fire_deadline_once :
    (text : Str → Str) (p : TaskPlan) (c : Chan) (m : Manager) (s : Str) (b : Addr)
    → p.notify ≡ some c
    → lookup s p.nodes ≡ some b
    → let m' = fire_deadline text p m in
      let timeout : PlanResult = record { status = plan_timeout; text = text p.id } in
      (m'.sent ≡ (if all_done m.heap p then m.sent else m.sent ++ (c, timeout) ∷ []))
      × (state_of m' b ≡ (if all_done m.heap p then state_of m b else settled (state_of m b)))
      × (all_done m'.heap p ≡ all_done m.heap p)
unfolding fire_deadline all_done send
fire_deadline_once text p c m s b n at = ground (
  arith,
  n,
  dispose_nodes_quiet p.nodes m,
  dispose_nodes_state p.nodes s b m at,
  all_nodes_done_ext m.heap (dispose_nodes p.nodes m).heap p.nodes
      (λ x. dispose_nodes_done p.nodes x m),
)

-- Leases that have run out

abbrev pub HasExpired : ℤ → TaskNode → Type 0
HasExpired now n =
    (n.state ≡ claimed) × (ltb_ℤ (pos 0) n.expires_at ≡ true) × (ltb_ℤ n.expires_at now ≡ true)

expired_in_sound : (h : Heap) (now : ℤ) (ns : Map Addr) → All (HasExpired now) (expired_in h now ns)
unfolding expired_in is_expired
expired_in_sound h now [] = tt
expired_in_sound h now ((k, a) ∷ rest) = ground (arith, expired_in_sound h now rest)

is_expired_of : (n : TaskNode) (now : ℤ) → HasExpired now n → is_expired now n ≡ true
unfolding is_expired
is_expired_of n now x = ground arith

expired_in_complete :
    (h : Heap) (now : ℤ) (ns : Map Addr) (s : Str) (a : Addr)
    → lookup s ns ≡ some a
    → HasExpired now (h a)
    → Memᴰ (h a) (expired_in h now ns)
unfolding expired_in lookup
expired_in_complete h now [] s a e x = cc
expired_in_complete h now ((k, b) ∷ rest) s a e x = elim (Bool-cases (str_eq k s)) [
  | inl hit ↦
      let same : b ≡ a = ground arith in rw (same, is_expired_of (h a) now x) (Memᴰ.head refl)
  | inr miss ↦
      let found = expired_in_complete h now rest s a (ground arith) x in
      elim (Bool-cases (is_expired now (h b))) [
        | inl y ↦ rw y (Memᴰ.tail found)
        | inr y ↦ rw y found
      ]
]

-- `Expired` returns exactly the registered nodes that are claimed under a lease that has run out.
expired_exact :
    (now : ℤ) (m : Manager) (s : Str) (a : Addr)
    → lookup s m.nodes ≡ some a
    → HasExpired now (m.heap a)
    → All (HasExpired now) (expired now m) × Memᴰ (m.heap a) (expired now m)
unfolding expired
expired_exact now m s a e x =
    (expired_in_sound m.heap now m.nodes, expired_in_complete m.heap now m.nodes s a e x)
