-- ===== src/Board/Privacy.antt =====
-- internal/task_workflow_layer/task_board/board.go: the prompts of tasks in what the board sends
-- out.
use lucinda.Base.{
  ◌≡◌, refl, Str, str_eq, lookup, lookup_or, List, [], ◌∷◌, ◌++◌, All, Bool-cases, Option-cases,
  inl, inr, length, List-cases, ◌⊎◌, ltb_ℤ, pos, ◌==◌,
}
use lucinda.Task.{Task, TaskAd, is_reduce}
use lucinda.Messages.{EventType, CapabilityCv, Payload}
use lucinda.Capability.{match}
use lucinda.Tracer.{get_local}
use lucinda.Board.Defs.{
  World, Env, Output, broadcasts, sends, publishes, Entry, rank, sort_entries, choose, interview,
  award, handout, build_cv, submit_bid, drawup, putup,
}
use lucinda.Board.Handlers.{on_event, on_ready, on_ad, on_cv, on_done}

-- The body is an ad, and its prompt is empty.
abbrev pub IsBlankAd : Payload → Type 0
IsBlankAd (Payload.broadcast b) = b.ad.spec.prompt ≡ []
IsBlankAd _ = ⊥

abbrev pub NoPrompt : Output → Type 0
NoPrompt (broadcasts m) = IsBlankAd m.body
NoPrompt (sends to m) = Unit
NoPrompt (publishes t p) = Unit

abbrev pub IsPrivate : World → Type 0
IsPrivate w = All NoPrompt w.outputs

All-snoc {ℓ κ} :
    {A : Type ℓ} (P : A → Type κ) (x : A) (xs : List A) → P x → All P xs → All P (xs ++ x ∷ [])
All-snoc P x [] h a = (h, tt)
All-snoc P x (y ∷ ys) h a = (a.0, All-snoc P x ys h a.1)

award-IsPrivate :
    (env : Env) (id : Str) (task : Task) (cv : CapabilityCv) (w : World)
    → IsPrivate w
    → IsPrivate (award env id task cv w)
unfolding award
award-IsPrivate env id task cv w v = elim (Bool-cases (str_eq cv.peer_id env.self)) [
  | inl e ↦ rw e (All-snoc NoPrompt _ w.outputs tt v)
  | inr e ↦ rw e (All-snoc NoPrompt _ w.outputs tt v)
]

choose-IsPrivate :
    (env : Env) (id : Str) (task : Task) (l : List Entry) (w : World)
    → IsPrivate w
    → IsPrivate (choose env id task l w).0
unfolding choose
choose-IsPrivate env id task [] w v = All-snoc NoPrompt _ w.outputs tt v
choose-IsPrivate env id task (e ∷ rest) w v = award-IsPrivate env id task e.0 w v

-- An interview changes nothing, or ends in a choice.
interview_cases :
    (env : Env) (id : Str) (w : World)
    → ((interview env id w).0 ≡ w)
      ⊎ ((task : Task) × (l : List Entry) × ((interview env id w).0 ≡ (choose env id task l w).0))
unfolding interview
interview_cases env id w = elim (Option-cases (get_local id w.tracer)) [
  | inl e ↦ inl (rw (e, interview) refl)
  | inr (task, e) ↦ elim (List-cases (lookup_or [] id w.board.bids)) [
    | inl b ↦ inl (rw (e, b, interview) refl)
    | inr (c, cs, b) ↦ elim (Option-cases (lookup id w.board.my_ads)) [
      | inl a ↦ inl (rw (e, b, a, interview) refl)
      | inr (ad, a) ↦ inr (task, sort_entries (rank ad.spec (c ∷ cs)), rw (e, b, a, interview) refl)
    ]
  ]
]

interview-IsPrivate :
    (env : Env) (id : Str) (w : World) → IsPrivate w → IsPrivate (interview env id w).0
interview-IsPrivate env id w v = elim (interview_cases env id w) [
  | inl e ↦ rw e v
  | inr (task, l, e) ↦ rw e (choose-IsPrivate env id task l w v)
]

handout-IsPrivate :
    (env : Env) (id : Str) (cv : CapabilityCv) (w : World)
    → IsPrivate w
    → IsPrivate (handout env id cv w)
unfolding handout
handout-IsPrivate env id cv w v =
    elim (Bool-cases (length (lookup_or [] id w.board.bids ++ cv ∷ []) == 1)) [
      | inl e ↦ rw e (interview-IsPrivate env id _ v)
      | inr e ↦ rw e v
    ]

submit_bid-IsPrivate :
    (env : Env) (ad : TaskAd) (w : World) → IsPrivate w → IsPrivate (submit_bid env ad w)
unfolding submit_bid
submit_bid-IsPrivate env ad w v =
    elim (Bool-cases (ltb_ℤ (match (build_cv env ad) ad.spec) (pos 0))) [
      | inl e ↦ rw e v
      | inr e ↦ rw e (handout-IsPrivate env ad.id (build_cv env ad) w v)
    ]

drawup-IsPrivate : (env : Env) (ad : TaskAd) (w : World) → IsPrivate w → IsPrivate (drawup env ad w)
unfolding drawup
drawup-IsPrivate env ad w v = elim (Option-cases (lookup ad.id w.board.peer_ads)) [
  | inl e ↦ rw (e, drawup) (submit_bid-IsPrivate env ad _ v)
  | inr (old, e) ↦ rw (e, drawup) v
]

putup-IsPrivate : (env : Env) (id : Str) (w : World) → IsPrivate w → IsPrivate (putup env id w)
unfolding putup
putup-IsPrivate env id w v = elim (Option-cases (lookup id w.board.my_ads)) [
  | inr (ad, e) ↦ rw (e, putup) v
  | inl e ↦ elim (Option-cases (get_local id w.tracer)) [
    | inl t ↦ rw (e, t, putup) v
    | inr (task, t) ↦ elim (Bool-cases (is_reduce task.spec.stage)) [
      | inl r ↦ rw (e, t, putup) (rw r v)
      | inr r ↦
          rw (e, t, putup) (rw r (drawup-IsPrivate env _ _ (All-snoc NoPrompt _ w.outputs refl v)))
    ]
  ]
]

on_ready-IsPrivate :
    (env : Env) (p : Payload) (w : World) → IsPrivate w → IsPrivate (on_ready env p w)
unfolding on_ready
on_ready-IsPrivate env (Payload.node a) w v = putup-IsPrivate env (w.manager.heap a).id w v
on_ready-IsPrivate env _ w v = v

on_ad-IsPrivate : (env : Env) (p : Payload) (w : World) → IsPrivate w → IsPrivate (on_ad env p w)
unfolding on_ad
on_ad-IsPrivate env (Payload.ad x) w v = drawup-IsPrivate env x w v
on_ad-IsPrivate env _ w v = v

on_cv-IsPrivate : (env : Env) (p : Payload) (w : World) → IsPrivate w → IsPrivate (on_cv env p w)
unfolding on_cv
on_cv-IsPrivate env (Payload.request r) w v = handout-IsPrivate env r.cv.task_id r.cv w v
on_cv-IsPrivate env _ w v = v

on_done-IsPrivate : (p : Payload) (w : World) → IsPrivate w → IsPrivate (on_done p w)
unfolding on_done
on_done-IsPrivate (Payload.result r) w v = v
on_done-IsPrivate _ w v = v

-- If all that the board has broadcast so far is free of prompts, it stays so whatever event a
-- handler gets: the bodies are ads with an empty prompt.
pub on_event-IsPrivate :
    (env : Env) (topic : EventType) (p : Payload) (w : World)
    → IsPrivate w
    → IsPrivate (on_event env topic p w)
unfolding on_event
on_event-IsPrivate env EventType.task_ready p w v = on_ready-IsPrivate env p w v
on_event-IsPrivate env EventType.task_republished p w v = on_ready-IsPrivate env p w v
on_event-IsPrivate env EventType.task_ad_received p w v = on_ad-IsPrivate env p w v
on_event-IsPrivate env EventType.task_cv_received p w v = on_cv-IsPrivate env p w v
on_event-IsPrivate env EventType.task_done p w v = on_done-IsPrivate p w v
on_event-IsPrivate env _ p w v = v
