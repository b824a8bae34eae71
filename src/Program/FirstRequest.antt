-- ===== src/Program/FirstRequest.antt =====
-- cmd/pc/main.go: what becomes of the first request to a program that has just started, across
-- internal/user_server, the event bus, the postman's loop and the planner.
use lucinda.Base.{ℕ, suc, insert, ◌≡◌, ap, ◌∙◌, Str, ℤ, lookup, [], ◌∷◌, ◌++◌, some, arith}
use lucinda.Task.{TaskPlan}
use lucinda.Messages.{task_preplanned, Payload}
use lucinda.EventBus.{Bus}
use lucinda.Postman.{new_event, watch_round}
use lucinda.Postman.Delivery.{round_taken}
use lucinda.Planner.{PlanEnv, PlanWorld, reduce_id, on_preplanned}
use lucinda.Reducer.{parent_plan_id}
use lucinda.UserServer.{wrapped_id, wrapped_task, Server, owner_or, tracking}
use lucinda.UserServer.Listening.{replies, streams_from, serve}
use lucinda.UserServer.Routing.{chat_request, stream_request, serve-chat, serve-stream}
use lucinda.UserServer.Results.{handle_chat_queued, on_preplanned_wrapped}
use lucinda.Program.Main.{Program}
use lucinda.Program.Wiring.{Wired}

-- The world of the planner in a program.
abbrev pub planning : {P : Type 0} → Program P → PlanWorld
planning p = record { tracer = p.tracer; manager = p.manager }

-- The handler of the planner's loop.
abbrev pub take_up : PlanEnv → Payload → PlanWorld → PlanWorld
take_up env e w = (on_preplanned env e w).0

-- In a program that has just started, the first post of a prompt to /chat is answered with a tracking
-- ID, and a request for that ID at /stream then waits on the channel made for it. One round of the
-- planner's loop ends with a plan of that ID in the books, whatever the model answers, which the
-- reducer finds from the ID of its reduce node, and which reports to that channel.
pub first_request :
    {P : Type 0} (p : Program P) (env : PlanEnv) (show : ℤ → Str) (now : ℤ) (d : ℕ)
    (rest owner : Str) (s : Server)
    → Wired p
    → let id = wrapped_id show now in
      (s' : Server) × (b' : Bus) × (serve show now
          (chat_request (record { prompt = d ∷ rest; owner = owner }))
          (s, p.services.bus)
        ≡ some ((s', b'), replies (tracking id)))
      × (serve show now (stream_request id) (s', b') ≡ some ((s', b'), streams_from s.next))
      × (let w' = (watch_round (take_up env) 6 (b', planning p)).0.1 in
          (plan : TaskPlan) × (lookup (parent_plan_id (reduce_id id)) w'.manager.plans ≡ some plan)
          × (plan.id ≡ id)
          × (plan.notify ≡ some s.next))
unfolding lookup on_preplanned new_event
first_request p env show now d rest owner s wired =
    let id = wrapped_id show now in
    let l = wired.preplanned in
    let s' : Server = record { streams = insert id s.next s.streams; next = suc s.next } in
    let (b', answered, queued, waits, gone) =
      handle_chat_queued show now d rest owner 6 s p.services.bus l.serves
        (ground (arith, l.empty, l.capacity)) in
    let e =
      new_event task_preplanned
        (Payload.task (wrapped_task id (d ∷ rest) (owner_or owner) s.next)) in
    let alone : (b'.channels 6).buffer ≡ e ∷ [] = queued ∙ ap (λ q. q ++ e ∷ []) l.empty in
    let round = round_taken (take_up env) 6 b' (planning p) e [] alone in
    let (plan, there, named, told) =
      on_preplanned_wrapped show now (d ∷ rest) (owner_or owner) s.next env (planning p)
        (ap (lookup id) wired.no_plans) in
    (
      s',
      b',
      serve-chat show now (record { prompt = d ∷ rest; owner = owner }) s p.services.bus answered,
      serve-stream show now id s' b' waits,
      (
        plan,
        ap (λ r. lookup (parent_plan_id (reduce_id id)) r.1.manager.plans) round ∙ there,
        named,
        told,
      ),
    )
