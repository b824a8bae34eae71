-- ===== src/Transport/Workers.antt =====
-- pkg/infrastructure_layer/transport/transporters/host.go: one step of each goroutine. Streams and
-- JSON are parameters: whether a stream opens, and whether the write succeeds.
use lucinda.Base.{
  ℕ, Str, ℤ, [], ◌∷◌, Option, none, some, Bool, true, false, if◌then◌else◌, ◌&&◌, not,
}
use lucinda.Messages.{NodeMessage}
use lucinda.Transport.Defs.{Transport, put_channel, try_send, remove_out_channel}

-- What a receive gives: a message, the end of a closed channel, or nothing yet.
pub data Received : Type 0 where
  message : NodeMessage → Received
  ended blocked : Received

unfoldable pub receive : ℕ → Transport → Transport × Received
receive c t = elim (t.channels c).buffer [
  | [] ↦ (t, if (t.channels c).is_closed then ended else blocked)
  | m ∷ rest ↦ (
    record t { channels = put_channel c (record (t.channels c) { buffer = rest }) t.channels },
    message m,
  )
]

-- Before its loop `sendWorker` ends, with its clean-up, if the peer's ID does not decode.
unfoldable pub send_worker_start : Bool → Str → Str → Transport → Transport
unfolding remove_out_channel
send_worker_start decodes to proto t = if decodes then t else remove_out_channel to proto t

-- What `sendWorker` writes into the message before it goes out.
unfoldable pub stamp : ℤ → Str → Str → NodeMessage → NodeMessage
stamp now from to m = record m { timestamp = now; from = from; to = to }

-- The outcome of one round of `sendWorker`: whether it goes on with a stream or without one, what it
-- wrote, the end of the worker, with its clean-up, and the panic of a transport without a host.
pub data Round : Type 0 where
  goes_on : Bool → Option NodeMessage → Round
  ends panics : Round

-- `has_stream` is whether there is a stream before the round; `opens` and `writes` are what libp2p
-- does in it. A message whose stream does not open, or whose write fails, is gone.
unfoldable pub send_worker_round :
    Bool → Bool → Bool → ℤ → Str → Str → ℕ → Transport → Transport × Round
unfolding receive stamp remove_out_channel
send_worker_round has_stream opens writes now to proto c t =
    let (t', r) = receive c t in
    elim r [
      | blocked ↦ (t', goes_on has_stream none)
      | ended ↦ (remove_out_channel to proto t', ends)
      | message m ↦
          if not has_stream && not t.has_host
          then (remove_out_channel to proto t', panics)
          else if not has_stream && not opens
          then (t', goes_on false none)
          else (t', goes_on writes (if writes then some (stamp now t.node_id to m) else none))
    ]

-- One round of `selfSendWorker`: a message that has no room is dropped.
unfoldable pub self_worker_round : ℕ → ℕ → Transport → Option (Transport × Bool)
unfolding receive try_send
self_worker_round out_channel ins_channel t =
    let (t', r) = receive out_channel t in
    elim r [
      | blocked ↦ some (t', true)
      | ended ↦ some (t', false)
      | message m ↦ elim (try_send ins_channel m t') [
        | none ↦ none
        | some (t'', ok) ↦ some (t'', true)
      ]
    ]

-- One round of the stream handler of `Open`, on the bytes of a message: what does not decode is
-- skipped, and what has no room is dropped.
unfoldable pub handler_round : (Str → Option NodeMessage) → ℕ → Str → Transport → Option Transport
unfolding try_send
handler_round unmarshal c bytes t = elim (unmarshal bytes) [
  | none ↦ some t
  | some m ↦ elim (try_send c m t) [ none ↦ none | some (t', ok) ↦ some t' ]
]
