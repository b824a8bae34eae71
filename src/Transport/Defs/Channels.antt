-- ===== src/Transport/Defs/Channels.antt =====
-- pkg/infrastructure_layer/transport/transporters/host.go: the state, and how its channels are made and closed.
use lucinda.Base.{
  ℕ, suc, Str, Map, lookup, lookup_or, insert, ℤ, pos, leb_ℤ, pos_part, List, [], ◌∷◌, Option, none,
  some, Bool, true, false, ◌==◌, if◌then◌else◌,
}
use lucinda.Messages.{NodeMessage}

pub record Channel : Type 0 where
  pub buffer : List NodeMessage
  pub capacity : ℕ
  pub is_closed : Bool

-- A worker that writes to a peer's stream, one that feeds messages to the node itself, and the
-- handler of the streams that come in, each with the channels that it holds.
pub data Worker : Type 0 where
  send_worker : Str → Str → ℕ → Worker
  self_worker : ℕ → ℕ → Worker
  stream_handler : Str → ℕ → Worker

pub data Error : Type 0 where
  already_started not_started host_failed mdns_failed : Error
  already_open not_open : Str → Error
  channel_full : Str → Str → Error

-- `has_host` is whether `Host` is set, which `Start` does and `Stop` leaves. `next` is the first
-- address that no channel has.
pub record Transport : Type 0 where
  pub node_id : Str
  pub has_host : Bool
  pub is_started : Bool
  pub outs_length : ℕ
  pub ins_length : ℕ
  pub outs : Map (Map ℕ)
  pub ins : Map ℕ
  pub channels : ℕ → Channel
  pub next : ℕ
  pub workers : List Worker
  pub mdns : Bool

abbrev no_channels : ℕ → Channel
no_channels c = record { buffer = []; capacity = 0; is_closed = false }

-- A length that is not positive is replaced.
abbrev length_or : ℕ → ℤ → ℕ
length_or default n = if leb_ℤ n (pos 0) then default else pos_part n

unfoldable pub new_libp2p_transport : ℤ → ℤ → Transport
new_libp2p_transport outs_length ins_length = record {
  node_id = [];
  has_host = false;
  is_started = false;
  outs_length = length_or 20 outs_length;
  ins_length = length_or 100 ins_length;
  outs = [];
  ins = [];
  channels = no_channels;
  next = 0;
  workers = [];
  mdns = false;
}

-- `Start`, with the ID of the host that libp2p makes.
unfoldable pub start : Option Str → Transport → Transport × Option Error
start host t = if t.is_started then (t, some already_started) else (elim host [
  | none ↦ (t, some host_failed)
  | some id ↦ (record t { node_id = id; has_host = true; is_started = true }, none)
])

abbrev pub put_channel : ℕ → Channel → (ℕ → Channel) → ℕ → Channel
put_channel c x channels d = if c == d then x else channels d

-- `make(chan …, capacity)`: a new channel, at the address `next` of the state before.
unfoldable pub make_channel : ℕ → Transport → Transport
make_channel capacity t = record t {
  channels =
      put_channel t.next (record { buffer = []; capacity = capacity; is_closed = false })
        t.channels;
  next = suc t.next;
}

unfoldable pub close_channel : ℕ → Transport → Option Transport
close_channel c t =
    if (t.channels c).is_closed
    then none
    else some (record t {
      channels = put_channel c (record (t.channels c) { is_closed = true }) t.channels;
    })

unfoldable pub close_channels : Map ℕ → Transport → Option Transport
unfolding close_channel
close_channels [] t = some t
close_channels ((proto, c) ∷ rest) t = elim (close_channel c t) [
  | none ↦ none
  | some t' ↦ close_channels rest t'
]

unfoldable pub close_peers : Map (Map ℕ) → Transport → Option Transport
unfolding close_channels
close_peers [] t = some t
close_peers ((node, protos) ∷ rest) t = elim (close_channels protos t) [
  | none ↦ none
  | some t' ↦ close_peers rest t'
]

-- The channel of a node and a protocol.
abbrev pub out_channel : Str → Str → Transport → Option ℕ
out_channel node proto t = lookup proto (lookup_or [] node t.outs)

abbrev pub set_out : Str → Str → ℕ → Transport → Transport
set_out node proto c t = record t {
  outs = insert node (insert proto c (lookup_or [] node t.outs)) t.outs;
}

unfoldable pub self_out_connect : Str → ℕ → Transport → Transport
unfolding make_channel
self_out_connect proto ins_channel t = elim (out_channel t.node_id proto t) [
  | some c ↦ t
  | none ↦
      let t' = set_out t.node_id proto t.next (make_channel t.outs_length t) in
      record t' { workers = self_worker t.next ins_channel ∷ t'.workers }
]
