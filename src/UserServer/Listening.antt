-- ===== src/UserServer/Listening.antt =====
-- internal/user_server/server.go: the server around the two handlers. net/http is a parameter, as
-- the outcomes of its calls; its multiplexer matches these patterns to a whole path.
use lucinda.Base.{Str, lit, Map, lookup, ℤ, [], ◌∷◌, Option, none, some, Bool}
use lucinda.EventBus.{Bus}
use lucinda.Task.{Chan}
use lucinda.UserServer.{
  Server, new_http_server, ChatBody, Reply, handle_chat, refused, waits_on, open_stream,
}

pub data Endpoint : Type 0 where
  chat stream healthz : Endpoint

unfoldable pub routes : Map Endpoint
routes = (lit "/chat", chat) ∷ (lit "/stream", stream) ∷ (lit "/healthz", healthz) ∷ []

-- What the handlers read of a request: `plan` is the query's, and `flushes` is whether its writer can
-- flush.
pub record Request : Type 0 where
  pub path : Str
  pub is_post : Bool
  pub body : ChatBody
  pub plan : Str
  pub flushes : Bool

pub data Answer : Type 0 where
  not_found : Answer
  text : Str → Answer
  replies : Reply → Answer
  streams_from : Chan → Answer

unfoldable pub handle_health : Str
handle_health = lit "ok"

-- A request up to its answer, or up to the wait for the result of a plan.
unfoldable pub serve : (ℤ → Str) → ℤ → Request → Server × Bus → Option ((Server × Bus) × Answer)
unfolding routes handle_health handle_chat open_stream
serve show now req (s, b) = elim (lookup req.path routes) [
  | none ↦ some ((s, b), not_found)
  | some endpoint ↦ elim endpoint [
    | chat ↦ elim (handle_chat show now req.is_post req.body (s, b)) [
      | none ↦ none
      | some (state, reply) ↦ some (state, replies reply)
    ]
    | stream ↦ some (
      (s, b),
      elim (open_stream req.plan req.flushes s) [
        | refused reply ↦ replies reply
        | waits_on c ↦ streams_from c
      ],
    )
    | healthz ↦ some ((s, b), text handle_health)
  ]
]

-- The server with the address of its `httpSrv`.
pub record Listener : Type 0 where
  pub server : Server
  pub http_srv : Option Str

unfoldable pub new_listener : Chan → Listener
unfolding new_http_server
new_listener next = record { server = new_http_server next; http_srv = none }

-- How `ListenAndServe` ends.
pub data Served : Type 0 where
  server_closed : Served
  serve_failed : Str → Served

unfoldable pub start : Str → Served → Listener → Listener × Option Str
start addr served s = (
  record s { http_srv = some addr },
  elim served [ server_closed ↦ none | serve_failed e ↦ some e ],
)

-- On the error, if any, that the `Shutdown` of net/http gives.
unfoldable pub shutdown : Option Str → Listener → Option Str
shutdown error s = elim s.http_srv [ none ↦ none | some addr ↦ error ]
