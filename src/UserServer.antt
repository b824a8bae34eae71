-- ===== src/UserServer.antt =====
-- internal/user_server/server.go and internal/task_wrapper/wrapper.go: from a chat request to a task,
-- and from the result of its plan to the stream. JSON, the clock and `%d` are parameters.
pub mod Listening
pub mod Routing
pub mod Results
use lucinda.Base.{
  ℕ, suc, Str, lit, Map, lookup, insert, delete, ℤ, List, [], ◌∷◌, ◌++◌, Option, none, some, Bool,
  true, false, not, if◌then◌else◌,
}
use lucinda.Task.{
  zero_spec, Task, Stage, PlanResult, PlanStatus, plan_ok, plan_error, plan_timeout, plan_cancelled,
  Chan,
}
use lucinda.Messages.{task_preplanned, Payload}
use lucinda.EventBus.{Bus}
use lucinda.Postman.{new_event, publish}

-- The wrapper

unfoldable pub wrapped_id : (ℤ → Str) → ℤ → Str
wrapped_id show now = lit "plan-" ++ show now

unfoldable pub wrapped_task : Str → Str → Str → Chan → Task
wrapped_task id prompt owner notify = record {
  meta = record { id = id; type = Stage.planning; owner = owner };
  spec = record zero_spec { prompt = prompt };
  task_plan = some (some notify);
}

-- `Wrap`, whose error is always nil. `now` is in nanoseconds.
unfoldable pub wrap : (ℤ → Str) → ℤ → Str → Str → Chan → Bus → Option (Bus × Str)
unfolding wrapped_id wrapped_task publish new_event
wrap show now prompt owner notify b =
    let id = wrapped_id show now in
    let e = new_event task_preplanned (Payload.task (wrapped_task id prompt owner notify)) in
    elim (publish task_preplanned e b) [ none ↦ none | some b' ↦ some (b', id) ]

-- The server

-- `next` is the first channel that no request has.
pub record Server : Type 0 where
  pub streams : Map Chan
  pub next : Chan

unfoldable pub new_http_server : Chan → Server
new_http_server next = record { streams = []; next = next }

-- The fields of a chat request; a field that does not decode is "".
pub record ChatBody : Type 0 where
  pub prompt : Str
  pub owner : Str

pub data Reply : Type 0 where
  post_only prompt_required plan_required plan_not_found no_streaming : Reply
  tracking : Str → Reply

abbrev pub owner_or : Str → Str
owner_or [] = lit "anonymous"
owner_or (c ∷ s) = c ∷ s

-- `handleChat`, on the method, and the fields of the body.
unfoldable pub handle_chat :
    (ℤ → Str) → ℤ → Bool → ChatBody → Server × Bus → Option ((Server × Bus) × Reply)
unfolding wrap
handle_chat show now is_post body (s, b) =
    if not is_post then some ((s, b), post_only) else (elim body.prompt [
      | [] ↦ some ((s, b), prompt_required)
      | c ∷ rest ↦ elim (wrap show now (c ∷ rest) (owner_or body.owner) s.next b) [
        | none ↦ none
        | some (b', id) ↦
            some (
              (record { streams = insert id s.next s.streams; next = suc s.next }, b'),
              tracking id,
            )
      ]
    ])

-- `handleStream` up to the wait: the channel that it waits on, or the refusal.
pub data Waiting : Type 0 where
  refused : Reply → Waiting
  waits_on : Chan → Waiting

unfoldable pub open_stream : Str → Bool → Server → Waiting
open_stream [] flushes s = refused plan_required
open_stream (c ∷ id) flushes s = elim (lookup (c ∷ id) s.streams) [
  | none ↦ refused plan_not_found
  | some ch ↦ if flushes then waits_on ch else refused no_streaming
]

-- The end of the wait: a result, or `none` when the client leaves.
unfoldable pub end_stream : Str → Server → Server
end_stream id s = record s { streams = delete id s.streams }

unfoldable pub status_name : PlanStatus → Str
status_name plan_ok = lit "ok"
status_name plan_error = lit "error"
status_name plan_timeout = lit "timeout"
status_name plan_cancelled = lit "cancelled"

abbrev quoted_result : (Str → Str) → Str → Str
quoted_result escape text =
    (lit "data: {\"type\":\"result\",\"text\":" ++ escape text) ++ lit "}\n\n"

abbrev quoted_error : (Str → Str) → Str → Str → Str
quoted_error escape status text =
    (((lit "data: {\"type\":\"error\",\"status\":\"" ++ status) ++ lit "\",\"text\":")
      ++ escape text)
    ++ lit "}\n\n"

-- What is written to the client; `escape` is `jsonEscape`.
unfoldable pub stream_text : (Str → Str) → PlanResult → Str
unfolding status_name
stream_text escape r =
    (elim r.status [
      | plan_ok ↦ quoted_result escape r.text
      | _ ↦ quoted_error escape (status_name r.status) r.text
    ])
    ++ lit "data: {\"type\":\"done\"}\n\n"
