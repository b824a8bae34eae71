-- ===== src/Witnesses/Network.antt =====
-- The theorems on the transport, the postman and the user server, at a bus with one loop and a
-- transport with one protocol and one peer.
use lucinda.Base.{
  ◌≡◌, refl, ℕ, suc, Str, lit, lookup, ℤ, pos, List, [], ◌∷◌, ◌++◌, Option, none, some, true, false,
  arith, inr, insert, str_eq,
}
use lucinda.Task.{TaskPlan}
use lucinda.Messages.{task_done, task_preplanned, Payload, NodeMessage}
use lucinda.EventBus.{Bus, Event, new_event_bus}
use lucinda.Transport.Defs.{
  Transport, new_libp2p_transport, start, open_protocol, close_protocol, send, try_send,
  send_worker, out_channel, clean_outbound_channels, get_or_create_out_channel,
}
use lucinda.Transport.Workers.{handler_round, send_worker_round, ends}
use lucinda.Transport.Closing.{held_channel_panics}
use lucinda.Transport.Stale.{stale_worker_removes}
use lucinda.Postman.{watch, new_event, deliver_round, watch_round}
use lucinda.Postman.Delivery.{
  Act, publishes, handles, run_acts, queue_acts, contents, Serves, run_acts-queue_acts,
}
use lucinda.Board.{World, Env, new_task_board, on_event}
use lucinda.Board.Network.{Idle, network_message_ignored}
use lucinda.Hardware.{zero_hardware}
use lucinda.Tracer.{new_task_tracer}
use lucinda.StateManager.{new_task_state_manager}
use lucinda.Planner.{PlanEnv, PlanWorld, reduce_id, on_preplanned}
use lucinda.Reducer.{parent_plan_id}
use lucinda.UserServer.{
  wrapped_id, wrapped_task, owner_or, Server, new_http_server, tracking, plan_not_found,
  handle_chat, refused, waits_on, open_stream, end_stream,
}
use lucinda.UserServer.Results.{AllOlder, handle_chat_tracked, on_preplanned_wrapped}
use lucinda.Witnesses.Data.{blank_heap, me}

-- The postman

abbrev watching : Bus
watching = (watch task_done new_event_bus).0

watching-Serves : Serves task_done 0 watching
unfolding watch new_event_bus lookup insert str_eq
watching-Serves = record { is_open = refl; alone = refl }

abbrev note : Event
note = new_event task_done (Payload.decoded (lit "done"))

abbrev count : Payload → ℕ → ℕ
count p n = suc n

abbrev acts : List Act
acts = publishes note ∷ handles ∷ handles ∷ publishes note ∷ []

run_acts-queue_acts_example :
    (t : Bus × ℕ) × (run_acts count task_done 0 acts (watching, 0) ≡ some t)
    × (contents 0 t
        ≡ queue_acts count (watching.channels 0).capacity acts (contents 0 (watching, 0)))
run_acts-queue_acts_example = run_acts-queue_acts count task_done 0 acts watching 0 watching-Serves

-- The transport

abbrev proto : Str
proto = lit "/task"

abbrev idle_transport : Transport
idle_transport = (open_protocol proto (start (some me) (new_libp2p_transport (pos 0) (pos 0))).0).0

abbrev message : NodeMessage
message = record {
  protocol = proto;
  topic = task_done;
  timestamp = pos 0;
  from = lit "peer";
  to = me;
  body = Payload.decoded (lit "{}");
}

abbrev unmarshal : Str → Option NodeMessage
unmarshal bytes = some message

idle_transport-Idle : Idle 0 idle_transport
unfolding open_protocol start new_libp2p_transport lookup
idle_transport-Idle = record { is_open = refl; empty = refl; room = omega arith }

abbrev env : Env
env = record { self = me; snapshot = zero_hardware; gpu = none; models = []; now = pos 100 }

abbrev world : World
world = record {
  board = new_task_board;
  tracer = new_task_tracer;
  manager = new_task_state_manager blank_heap;
  outputs = [];
}

network_message_ignored_example :
    (t₁ : Transport) × (t₂ : Transport) × (b' : Bus) × (handler_round unmarshal 0
        (lit "{}")
        idle_transport
      ≡ some t₁)
    × (deliver_round 0 (t₁, watching) ≡ some ((t₂, b'), true))
    × ((b'.channels 0).buffer ≡ new_event task_done (Payload.decoded (lit "{}")) ∷ [])
    × ((watch_round (on_event env task_done) 0 (b', world)).0.1 ≡ world)
unfolding watch new_event_bus
network_message_ignored_example =
    network_message_ignored env unmarshal 0 0 (lit "{}") (lit "{}") message idle_transport watching
      world refl refl idle_transport-Idle watching-Serves refl (omega arith)

-- The transport after its protocol is closed.
abbrev closed_transport : Transport
closed_transport = elim (close_protocol proto idle_transport) [
  | none ↦ idle_transport
  | some (t, err) ↦ t
]

held_channel_panics_example :
    (try_send 0 message closed_transport ≡ none)
    × (handler_round unmarshal 0 (lit "{}") closed_transport ≡ none)
unfolding lookup open_protocol start new_libp2p_transport insert str_eq close_protocol
held_channel_panics_example =
    held_channel_panics (lit "{}") idle_transport closed_transport 0 unmarshal message
      (inr (proto, refl, refl)) refl

abbrev peer : Str
peer = lit "peer"

-- The transport with an empty channel, 2, to a peer.
abbrev connected : Transport
connected = (get_or_create_out_channel peer proto idle_transport).0

stale_worker_removes_example :
    (t₂ : Transport) × (t₃ : Transport) × (send peer message
        (clean_outbound_channels peer connected)
      ≡ some (t₂, none))
    × (out_channel peer proto t₂ ≡ some 3)
    × (send_worker_round true true true (pos 5) peer proto 2 t₂ ≡ (t₃, ends))
    × (out_channel peer proto t₃ ≡ none)
    × ((t₃.channels 3).buffer ≡ message ∷ [])
    × ((t₃.channels 3).is_closed ≡ false)
    × (t₃.workers ≡ send_worker peer proto 3 ∷ connected.workers)
unfolding lookup get_or_create_out_channel open_protocol start new_libp2p_transport insert str_eq
stale_worker_removes_example =
    stale_worker_removes peer 2 message (pos 5) connected refl refl refl (omega arith) (omega arith)

-- The user server

abbrev planning : Bus
planning = (watch task_preplanned new_event_bus).0

planning-Serves : Serves task_preplanned 0 planning
unfolding watch new_event_bus lookup insert str_eq
planning-Serves = record { is_open = refl; alone = refl }

abbrev show : ℤ → Str
show n = lit "17"

no_streams-AllOlder : AllOlder (new_http_server 4)
unfolding new_http_server lookup
no_streams-AllOlder = λ k c e. cc

handle_chat_tracked_example :
    let id = wrapped_id show (pos 17) in
    (s' : Server) × (b' : Bus) × (handle_chat show
        (pos 17)
        true
        (record { prompt = lit "hi"; owner = [] })
        (new_http_server 4, planning)
      ≡ some ((s', b'), tracking id))
    × ((b'.channels 0).buffer
        ≡ []
          ++ new_event task_preplanned (Payload.task (wrapped_task id (lit "hi") (owner_or []) 4))
            ∷ [])
    × (open_stream id true s' ≡ waits_on 4)
    × (open_stream id true (end_stream id s') ≡ refused plan_not_found)
    × ((k : Str) → lookup k s'.streams ≡ some 4 → k ≡ id)
    × AllOlder s'
unfolding watch new_event_bus new_http_server
handle_chat_tracked_example =
    handle_chat_tracked show (pos 17) b'h' (lit "i") [] 0 (new_http_server 4) planning
      planning-Serves (omega arith) no_streams-AllOlder

abbrev plan_env : PlanEnv
plan_env = record {
  provider = none;
  decomposition = λ prompt. prompt;
  unmarshal = λ text. none;
  now = pos 0;
  next = 0;
}

abbrev plan_world : PlanWorld
plan_world = record { tracer = new_task_tracer; manager = new_task_state_manager blank_heap }

on_preplanned_wrapped_example :
    let id = wrapped_id show (pos 17) in
    let w' =
      (on_preplanned plan_env (Payload.task (wrapped_task id (lit "hi") me 4)) plan_world).0 in
    (p : TaskPlan) × (lookup (parent_plan_id (reduce_id id)) w'.manager.plans ≡ some p)
    × (p.id ≡ id)
    × (p.notify ≡ some 4)
unfolding lookup new_task_state_manager
on_preplanned_wrapped_example =
    on_preplanned_wrapped show (pos 17) (lit "hi") me 4 plan_env plan_world refl
