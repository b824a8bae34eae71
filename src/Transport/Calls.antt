-- ===== src/Transport/Calls.antt =====
-- pkg/infrastructure_layer/transport/transporters/host.go: any sequence of calls of the transport, each
-- under its lock from its start to its end.
use lucinda.Base.{
  ℕ, ◌≡◌, refl, ==_iff, Str, ℤ, List, [], ◌∷◌, Option, none, some, Bool, true, false, str_eq, arith,
  if◌then◌else◌, Bool-cases, Option-cases, inl, inr, ltb, length, ◌++◌,
}
use lucinda.Messages.{NodeMessage}
use lucinda.Transport.Defs.{
  Transport, Error, new_libp2p_transport, start, open_protocol, close_protocol, stop, send, publish,
  publish_to, remove_out_channel, clean_outbound_channels, discover_mdns, get_or_create_out_channel,
  try_send, put_channel, channel_full,
}
use lucinda.Transport.Workers.{receive}
use lucinda.Transport.Sound.{Sound, stop-Sound}
use lucinda.Transport.Keeping.{
  open_protocol-Sound, remove_out_channel-Sound, get_or_create_out_channel-Sound,
}
use lucinda.Transport.Hosting.{
  open_protocol_host, close_protocol_host, stop_host, send_host, publish_to_host,
  remove_out_channel_host, clean_outbound_channels_host,
}
use lucinda.Transport.Removing.{close_protocol-Sound, clean_outbound_channels-Sound}

-- The methods, the clean-up behind a peer that disconnects, that of a worker which ends, and the receive
-- of any reader. An error is passed over.
pub data Call : Type 0 where
  starts : Option Str → Call
  opens closes : Str → Call
  sends : Str → NodeMessage → Call
  publishes : List Str → NodeMessage → Call
  stops : Call
  discovers : Bool → Call
  cleans : Str → Call
  removes : Str → Str → Call
  receives : ℕ → Call

abbrev state_of : Option (Transport × Option Error) → Option Transport
state_of none = none
state_of (some (t, err)) = some t

unfoldable pub call : Call → Transport → Option Transport
unfolding start open_protocol close_protocol send publish stop discover_mdns clean_outbound_channels
    remove_out_channel receive
call (starts host) t = some (start host t).0
call (opens proto) t = some (open_protocol proto t).0
call (closes proto) t = state_of (close_protocol proto t)
call (sends to m) t = state_of (send to m t)
call (publishes known m) t = state_of (publish known m t)
call stops t = state_of (stop t)
call (discovers works) t = some (discover_mdns works t).0
call (cleans node) t = some (clean_outbound_channels node t)
call (removes to proto) t = some (remove_out_channel to proto t)
call (receives c) t = some (receive c t).0

-- `none` if one of the calls panics.
unfoldable pub calls : List Call → Transport → Option Transport
unfolding call
calls [] t = some t
calls (o ∷ rest) t = elim (call o t) [ none ↦ none | some t' ↦ calls rest t' ]

-- Maps, flags and buffers aside, the channels of the maps are those of the state before.
same_flags-Sound :
    (t t' : Transport)
    → Sound t
    → t'.ins ≡ t.ins
    → t'.outs ≡ t.outs
    → t'.next ≡ t.next
    → ((c : ℕ) → (t'.channels c).is_closed ≡ (t.channels c).is_closed)
    → Sound t'
same_flags-Sound t t' s ins outs next flags = record {
  once = λ c. ground (arith, ins, outs, s.once c);
  live = λ c k. ground (arith, ins, outs, s.live c, flags c);
  known = λ c k. ground (arith, ins, outs, next, s.known c);
}

try_send-Sound :
    (c : ℕ) (m : NodeMessage) (t : Transport)
    → Sound t
    → (t.channels c).is_closed ≡ false
    → (t' : Transport) × (sent : Bool) × (try_send c m t ≡ some (t', sent)) × Sound t'
unfolding try_send
try_send-Sound c m t s live =
    let x = t.channels c in
    elim (Bool-cases (ltb (length x.buffer) x.capacity)) [
      | inl room ↦
          let t' : Transport = record t {
            channels = put_channel c (record x { buffer = x.buffer ++ m ∷ [] }) t.channels;
          } in
          (
            t',
            true,
            rw (try_send, live, room) refl,
            same_flags-Sound t t' s refl refl refl (λ d. ground (arith, ==_iff c d)),
          )
      | inr full ↦ (t, false, rw (try_send, live, full) refl, s)
    ]

send-Sound :
    (to : Str) (m : NodeMessage) (t : Transport)
    → Sound t
    → (t' : Transport) × (err : Option Error) × (send to m t ≡ some (t', err)) × Sound t'
unfolding send
send-Sound to m t s =
    let (s₁, live) = get_or_create_out_channel-Sound to m.protocol t s in
    let (t₁, c) = get_or_create_out_channel to m.protocol t in
    let (t₂, sent, eq, s₂) = try_send-Sound c m t₁ s₁ live in
    (t₂, (if sent then none else some (channel_full to m.protocol)), rw (eq, send) refl, s₂)

publish_to-Sound :
    (known : List Str) (m : NodeMessage) (t : Transport) (last : Option Error)
    → Sound t
    → (t' : Transport) × (err : Option Error) × (publish_to known m (t, last) ≡ some (t', err))
      × Sound t'
unfolding publish_to
publish_to-Sound [] m t last s = (t, last, refl, s)
publish_to-Sound (p ∷ rest) m t last s = elim (Bool-cases (str_eq p t.node_id)) [
  | inl own ↦
      let (t', err, eq, s') = publish_to-Sound rest m t last s in
      (t', err, rw (own, publish_to) eq, s')
  | inr other ↦
      let (t₁, e, sent, s₁) = send-Sound p m t s in
      let (t', err, eq, s') =
        publish_to-Sound rest m t₁ (elim e [ none ↦ last | some f ↦ some f ]) s₁ in
      (t', err, rw (other, publish_to, sent) eq, s')
]

pub start-Sound : (host : Option Str) (t : Transport) → Sound t → Sound (start host t).0
unfolding start
start-Sound host t s =
    same_flags-Sound t (start host t).0 s (ground arith) (ground arith) (ground arith)
      (λ c. ground arith)

discover_mdns-Sound : (works : Bool) (t : Transport) → Sound t → Sound (discover_mdns works t).0
unfolding discover_mdns
discover_mdns-Sound works t s =
    same_flags-Sound t (discover_mdns works t).0 s (ground arith) (ground arith) (ground arith)
      (λ c. ground arith)

receive-Sound : (c : ℕ) (t : Transport) → Sound t → Sound (receive c t).0
unfolding receive
receive-Sound c t s =
    same_flags-Sound t (receive c t).0 s (ground arith) (ground arith) (ground arith)
      (λ d. ground (arith, ==_iff c d))

abbrev Keeps : Call → Transport → Type 0
Keeps o t = (t' : Transport) × (call o t ≡ some t') × Sound t'

call-Sound : (o : Call) (t : Transport) → Sound t → t.has_host ≡ true → Keeps o t
unfolding call publish
call-Sound (starts host) t s k = (_, refl, start-Sound host t s)
call-Sound (opens proto) t s k = (_, refl, open_protocol-Sound proto t s)
call-Sound (closes proto) t s k =
    let (t', err, eq, s') = close_protocol-Sound proto t s in (t', rw (eq, call) refl, s')
call-Sound (sends to m) t s k =
    let (t', err, eq, s') = send-Sound to m t s in (t', rw (eq, call) refl, s')
call-Sound (publishes known m) t s k =
    let (t', err, eq, s') = publish_to-Sound known m t none s in (t', ground (arith, k, eq), s')
call-Sound stops t s k = let (t', err, eq, s', off) = stop-Sound t s in (t', rw (eq, call) refl, s')
call-Sound (discovers works) t s k = (_, refl, discover_mdns-Sound works t s)
call-Sound (cleans node) t s k = (_, refl, clean_outbound_channels-Sound node t s)
call-Sound (removes to proto) t s k = (_, refl, remove_out_channel-Sound to proto t s)
call-Sound (receives c) t s k = (_, refl, receive-Sound c t s)

pub new_libp2p_transport-Sound : (outs ins : ℤ) → Sound (new_libp2p_transport outs ins)
unfolding new_libp2p_transport
new_libp2p_transport-Sound outs ins = record {
  once = λ c. omega arith;
  live = λ c k. absurd (omega (arith, k));
  known = λ c k. omega (arith, k);
}

-- The host that `Start` sets is never taken away.
call_host :
    (o : Call) (t t' : Transport) → call o t ≡ some t' → t.has_host ≡ true → t'.has_host ≡ true
unfolding call start discover_mdns receive publish
call_host (starts host) t t' h k = ground arith
call_host (opens proto) t t' h k = ground (arith, open_protocol_host proto t)
call_host (closes proto) t t' h k = elim (Option-cases (close_protocol proto t)) [
  | inl e ↦ absurd (ground (arith, e))
  | inr ((t₁, err), e) ↦ ground (arith, e, close_protocol_host proto t t₁ err e)
]
call_host (sends to m) t t' h k = elim (Option-cases (send to m t)) [
  | inl e ↦ absurd (ground (arith, e))
  | inr ((t₁, err), e) ↦ ground (arith, e, send_host to m t t₁ err e)
]
call_host (publishes known m) t t' h k = elim (Option-cases (publish_to known m (t, none))) [
  | inl e ↦ absurd (ground (arith, e))
  | inr ((t₁, err), e) ↦ ground (arith, e, publish_to_host known m t t₁ none err e)
]
call_host stops t t' h k = elim (Option-cases (stop t)) [
  | inl e ↦ absurd (ground (arith, e))
  | inr ((t₁, err), e) ↦ ground (arith, e, stop_host t t₁ err e)
]
call_host (discovers works) t t' h k = ground arith
call_host (cleans node) t t' h k = ground (arith, clean_outbound_channels_host node t)
call_host (removes to proto) t t' h k = ground (arith, remove_out_channel_host to proto t)
call_host (receives c) t t' h k = ground arith

-- From a sound transport that has a host, such as a new one after a `Start` without an error, no
-- sequence of calls panics, whatever the calls and their arguments are, if each is whole before the
-- next one starts: every channel is closed at most once, no message is put into a closed one, and the
-- transport goes on being sound and having a host.
pub calls-Sound :
    (l : List Call) (t : Transport)
    → Sound t
    → t.has_host ≡ true
    → (t' : Transport) × (calls l t ≡ some t') × Sound t' × (t'.has_host ≡ true)
unfolding calls
calls-Sound [] t s k = (t, refl, s, k)
calls-Sound (o ∷ rest) t s k =
    let (t₁, first, s₁) = call-Sound o t s k in
    let (t', others, s', k') = calls-Sound rest t₁ s₁ (call_host o t t₁ first k) in
    (t', rw (first, calls) others, s', k')
