-- ===== src/Board/Protocol.antt =====
-- internal/task_workflow_layer/task_board/board.go: advertisements, bids and the award as the
-- handlers run them.
use lucinda.Base.{
  ◌≡◌, ◌==◌, refl, ap, ◌∙◌, ◌≤ℤ◌, inl, inr, Str, str_eq, str_eq_refl, lookup, lookup_or,
  lookup-insert, insert, pos, leb_ℤ, List, [], ◌∷◌, ◌++◌, Map, none, some, true, false, Bool-cases,
  arith, length,
}
use lucinda.Task.{Addr, ready, claimed, TaskSpec, Task, TaskAd, is_reduce, task_to_task_ad}
use lucinda.Messages.{CapabilityCv, EventType, Payload}
use lucinda.Capability.{match}
use lucinda.Tracer.{get_local}
use lucinda.StateManager.{Manager, state_of, claim}
use lucinda.StateManager.Holding.{claim-Holds}
use lucinda.Board.Defs.{
  World, Env, rank, sort_entries, interview, InterviewResult, award, handout, drawup, putup,
}
use lucinda.Board.Award.{interview_candidates, award_clears, choose_first}
use lucinda.Board.Handlers.{on_event}

-- What `json.Unmarshal` decodes into a message's `Body` is of no type that a handler accepts: an
-- event with such a payload changes nothing, whatever its topic.
pub on_event_decoded :
    (env : Env) (topic : EventType) (text : Str) (w : World)
    → on_event env topic (Payload.decoded text) w ≡ w
unfolding on_event
on_event_decoded env topic text w = ground arith

-- A local task without an ad of the board's own, no reduce node, that is still on the list of the
-- peers' ads is put up without a bid: it has an ad again, but nothing is claimed, and no bid is
-- recorded.
pub putup_again_no_bid :
    (env : Env) (id : Str) (w : World) (task : Task) (old : TaskAd)
    → lookup id w.board.my_ads ≡ none
    → get_local id w.tracer ≡ some task
    → is_reduce task.spec.stage ≡ false
    → lookup task.meta.id w.board.peer_ads ≡ some old
    → let w' = putup env id w in
      (w'.board.bids ≡ w.board.bids)
      × (w'.manager ≡ w.manager)
      × (lookup id w'.board.my_ads ≡ some (task_to_task_ad task))
unfolding putup task_to_task_ad
putup_again_no_bid env id w task old a t s p =
    rw (a, t, s, putup)
      (rw (p, drawup)
        (
          refl,
          refl,
          lookup-insert id id (task_to_task_ad task) w.board.my_ads
              ∙ ground (arith, str_eq_refl id),
        ))

abbrev with_bids : Str → List CapabilityCv → World → World
with_bids id l w = record w { board = record board { bids = insert id l board.bids } }
  where
    open w use {board}

handout_first :
    (env : Env) (id : Str) (w : World) (cv : CapabilityCv)
    → lookup_or [] id w.board.bids ≡ []
    → handout env id cv w ≡ (interview env id (with_bids id (cv ∷ []) w)).0
unfolding handout
handout_first env id w cv b = rw (b, handout) refl

rank_one :
    (spec : TaskSpec) (cv : CapabilityCv)
    → pos 0 ≤ℤ match cv spec
    → sort_entries (rank spec (cv ∷ [])) ≡ (cv, match cv spec) ∷ []
unfolding rank sort_entries
rank_one spec cv q = let pass : leb_ℤ (pos 0) (match cv spec) ≡ true = ground arith in rw pass refl

award_manager :
    (env : Env) (id : Str) (task : Task) (cv : CapabilityCv) (w : World)
    → (award env id task cv w).manager ≡ (claim id cv.peer_id (pos 30) env.now w.manager).0
unfolding award
award_manager env id task cv w = elim (Bool-cases (str_eq cv.peer_id env.self)) [
  | inl e ↦ rw e refl
  | inr e ↦ rw e refl
]

lookup_or-insert_self {ℓ} :
    {V : Type ℓ} (d v : V) (k : Str) (m : Map V) → lookup_or d k (insert k v m) ≡ v
lookup_or-insert_self d v k m = ground (arith, lookup-insert k k v m, str_eq_refl k)

-- The first bid that is recorded for an advertised local task whose node is Ready, if it qualifies,
-- takes the task at once: the manager is as `Claim` leaves it, in which the node is Claimed and the
-- bidder holds it, and the ad and the bids are gone.
pub first_bid_wins :
    (env : Env) (id : Str) (w : World) (task : Task) (ad : TaskAd) (cv : CapabilityCv) (a : Addr)
    → get_local id w.tracer ≡ some task
    → lookup id w.board.my_ads ≡ some ad
    → lookup_or [] id w.board.bids ≡ []
    → pos 0 ≤ℤ match cv ad.spec
    → lookup id w.manager.nodes ≡ some a
    → state_of w.manager a ≡ ready
    → let w' = handout env id cv w in
      (w'.manager ≡ (claim id cv.peer_id (pos 30) env.now w.manager).0)
      × (state_of w'.manager a ≡ claimed)
      × (lookup id w'.manager.claimed ≡ some cv.peer_id)
      × (lookup id w'.board.my_ads ≡ none)
      × (lookup id w'.board.bids ≡ none)
first_bid_wins env id w task ad cv a t mine b q e r =
    let w₁ = with_bids id (cv ∷ []) w in
    let run =
      handout_first env id w cv b
      ∙ ap (λ (r : World × InterviewResult). r.0)
          (interview_candidates env id w₁ task ad cv [] t mine
              (lookup_or-insert_self [] (cv ∷ []) id w.board.bids)
            ∙ choose_first env id task w₁ (sort_entries (rank ad.spec (cv ∷ []))) []
                (cv, match cv ad.spec) (rank_one ad.spec cv q)) in
    let cleared = award_clears env id task cv w₁ in
    let by_claim = award_manager env id task cv w₁ in
    let h = claim-Holds id cv.peer_id (pos 30) env.now w.manager a e r in
    rw run (
      by_claim,
      ap (λ m. state_of m a) by_claim ∙ h.is_claimed,
      ap (λ (m : Manager). lookup id m.claimed) by_claim ∙ h.by,
      cleared.0,
      cleared.1,
    )

interview_no_ad :
    (env : Env) (id : Str) (w : World)
    → lookup id w.board.my_ads ≡ none
    → (interview env id w).0 ≡ w
unfolding interview
interview_no_ad env id w a = ground arith

-- A bid on a task that has no ad of the board's own is recorded, however good it is, but nothing
-- is claimed and nothing is sent.
late_bid_ignored :
    (env : Env) (id : Str) (w : World) (cv : CapabilityCv)
    → lookup id w.board.my_ads ≡ none
    → let w' = handout env id cv w in
      (w'.manager ≡ w.manager)
      × (w'.outputs ≡ w.outputs)
      × (lookup id w'.board.bids ≡ some (lookup_or [] id w.board.bids ++ cv ∷ []))
unfolding handout
late_bid_ignored env id w cv a =
    let l = lookup_or [] id w.board.bids ++ cv ∷ [] in
    let w₁ = with_bids id l w in
    let stored : lookup id (insert id l w.board.bids) ≡ some l =
      lookup-insert id id l w.board.bids ∙ ground (arith, str_eq_refl id) in
    elim (Bool-cases (length l == 1)) [
      | inl e ↦ rw e (rw (interview_no_ad env id w₁ a) (refl, refl, stored))
      | inr e ↦ rw e (refl, refl, stored)
    ]
