-- ===== src/Transport/Defs/Methods.antt =====
-- pkg/infrastructure_layer/transport/transporters/host.go: the methods.
use lucinda.Base.{
  ℕ, Str, Map, lookup, insert, delete, List, [], ◌∷◌, ◌++◌, Option, none, some, Bool, true, false,
  length, ltb, not, if◌then◌else◌, str_eq, keep,
}
use lucinda.Capability.{is_empty}
use lucinda.Messages.{NodeMessage}
use lucinda.Transport.Defs.Channels.{
  Error, Transport, put_channel, make_channel, close_channel, close_channels, close_peers,
  out_channel, set_out, self_out_connect, send_worker, stream_handler, not_started, mdns_failed,
  already_open, not_open, channel_full,
}

-- `Open`
unfoldable pub open_protocol : Str → Transport → Transport × Option Error
unfolding make_channel self_out_connect
open_protocol proto t =
    if not t.is_started then (t, some not_started) else (elim (lookup proto t.ins) [
      | some c ↦ (t, some (already_open proto))
      | none ↦
          let t₁ = make_channel t.ins_length t in
          let t₂ = record t₁ { ins = insert proto t.next t₁.ins } in
          let t₃ = self_out_connect proto t.next t₂ in
          (record t₃ { workers = stream_handler proto t.next ∷ t₃.workers }, none)
    ])

-- The inner map may be left empty.
unfoldable pub self_disconnect : Str → Transport → Option Transport
unfolding close_channel
self_disconnect proto t = elim (lookup t.node_id t.outs) [
  | none ↦ some t
  | some protos ↦ elim (lookup proto protos) [
    | none ↦ some t
    | some c ↦ elim (close_channel c t) [
      | none ↦ none
      | some t' ↦ some (record t' { outs = insert t.node_id (delete proto protos) t'.outs })
    ]
  ]
]

-- `Close`
unfoldable pub close_protocol : Str → Transport → Option (Transport × Option Error)
unfolding close_channel self_disconnect
close_protocol proto t =
    if not t.is_started then some (t, some not_started) else (elim (lookup proto t.ins) [
      | none ↦ some (t, some (not_open proto))
      | some c ↦ elim (close_channel c t) [
        | none ↦ none
        | some t₁ ↦ elim (self_disconnect proto (record t₁ { ins = delete proto t₁.ins })) [
          | none ↦ none
          | some t₂ ↦ some (t₂, none)
        ]
      ]
    ])

-- `Stop`. The host closes without an error.
unfoldable pub stop : Transport → Option (Transport × Option Error)
unfolding close_channels close_peers
stop t = if not t.is_started then some (t, some not_started) else (elim (close_channels t.ins t) [
  | none ↦ none
  | some t₁ ↦ elim (close_peers t.outs t₁) [
    | none ↦ none
    | some t₂ ↦ some (record t₂ { ins = []; outs = []; mdns = false; is_started = false }, none)
  ]
])

unfoldable pub get_or_create_out_channel : Str → Str → Transport → Transport × ℕ
unfolding make_channel
get_or_create_out_channel to proto t = elim (out_channel to proto t) [
  | some c ↦ (t, c)
  | none ↦
      let t' = set_out to proto t.next (make_channel t.outs_length t) in
      (record t' { workers = send_worker to proto t.next ∷ t'.workers }, t.next)
]

-- What a `select` with a send and a `default` does: the message goes into the buffer if there is
-- room, and the flag says whether it did.
unfoldable pub try_send : ℕ → NodeMessage → Transport → Option (Transport × Bool)
try_send c message t =
    if (t.channels c).is_closed
    then none
    else if ltb (length (t.channels c).buffer) (t.channels c).capacity
    then some (
      record t {
        channels =
            put_channel c (record (t.channels c) { buffer = (t.channels c).buffer ++ message ∷ [] })
              t.channels;
      },
      true,
    )
    else some (t, false)

-- `Send` without another step between its two; the context is not cancelled.
unfoldable pub send : Str → NodeMessage → Transport → Option (Transport × Option Error)
unfolding get_or_create_out_channel try_send
send to message t =
    let (t₁, c) = get_or_create_out_channel to message.protocol t in
    elim (try_send c message t₁) [
      | none ↦ none
      | some (t₂, accepted) ↦
          some (t₂, if accepted then none else some (channel_full to message.protocol))
    ]

-- The loop of `Publish` over the peers that the host knows, with the last error.
unfoldable pub publish_to :
    List Str → NodeMessage → Transport × Option Error → Option (Transport × Option Error)
unfolding send
publish_to [] message s = some s
publish_to (p ∷ rest) message (t, last) = elim (str_eq p t.node_id) [
  | true ↦ publish_to rest message (t, last)
  | false ↦ elim (send p message t) [
    | none ↦ none
    | some (t', err) ↦ publish_to rest message (t', elim err [ none ↦ last | some e ↦ some e ])
  ]
]

-- `peers` is what the host knows; without a host the call panics.
unfoldable pub publish : List Str → NodeMessage → Transport → Option (Transport × Option Error)
unfolding publish_to
publish peers message t = if t.has_host then publish_to peers message (t, none) else none

unfoldable pub remove_out_channel : Str → Str → Transport → Transport
remove_out_channel to proto t = elim (lookup to t.outs) [
  | none ↦ t
  | some protos ↦
      let left = delete proto protos in
      record t { outs = if is_empty left then delete to t.outs else insert to left t.outs }
]

-- A panic of the close is recovered; the closes before it stand.
unfoldable pub close_until_panic : Map ℕ → Transport → Transport × Bool
unfolding close_channel
close_until_panic [] t = (t, false)
close_until_panic ((proto, c) ∷ rest) t = elim (close_channel c t) [
  | none ↦ (t, true)
  | some t' ↦ close_until_panic rest t'
]

unfoldable pub clean_outbound_channels : Str → Transport → Transport
unfolding close_until_panic
clean_outbound_channels node t = elim (lookup node t.outs) [
  | none ↦ t
  | some protos ↦
      let (t', panicked) = close_until_panic protos t in
      if panicked then t' else record t' { outs = delete node t'.outs }
]

unfoldable pub incoming : Str → Transport → Option ℕ
incoming proto t = lookup proto t.ins

-- `Peers`, which panics without a host.
unfoldable pub peers : List Str → Transport → Option (List Str)
peers known t = if t.has_host then some (keep (λ p. not (str_eq p t.node_id)) known) else none

-- `DiscoverMDNS`, with whether the service starts.
unfoldable pub discover_mdns : Bool → Transport → Transport × Option Error
discover_mdns starts t =
    if not t.is_started
    then (t, some not_started)
    else if t.mdns
    then (t, none)
    else if starts
    then (record t { mdns = true }, none)
    else (t, some mdns_failed)
