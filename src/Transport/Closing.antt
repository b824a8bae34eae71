-- ===== src/Transport/Closing.antt =====
-- pkg/infrastructure_layer/transport/transporters/host.go: channels that are closed while a goroutine
-- still holds them.
use lucinda.Base.{
  ℕ, ◌≡◌, Str, str_eq, Map, lookup, lookup_or, delete, [], ◌∷◌, Option, none, some, true, arith,
  Option-cases, Bool-cases, inl, inr, ◌⊎◌,
}
use lucinda.Messages.{NodeMessage}
use lucinda.Transport.Defs.{
  Transport, Error, close_channel, close_channels, close_peers, out_channel, self_disconnect,
  close_protocol, stop, try_send,
}
use lucinda.Transport.Workers.{handler_round}

-- Closed channels stay closed.
abbrev StaysClosed : Transport → Transport → Type 0
StaysClosed t t' = (c : ℕ) → (t.channels c).is_closed ≡ true → (t'.channels c).is_closed ≡ true

close_channel-StaysClosed :
    (d : ℕ) (t t' : Transport) → close_channel d t ≡ some t' → StaysClosed t t'
unfolding close_channel
close_channel-StaysClosed d t t' h = λ c k. ground arith

close_channel_closes :
    (c : ℕ) (t t' : Transport) → close_channel c t ≡ some t' → (t'.channels c).is_closed ≡ true
unfolding close_channel
close_channel_closes c t t' h = ground arith

close_channels_step :
    (p : Str) (c : ℕ) (rest : Map ℕ) (t t' : Transport)
    → close_channels ((p, c) ∷ rest) t ≡ some t'
    → (t₁ : Transport) × (close_channel c t ≡ some t₁) × (close_channels rest t₁ ≡ some t')
unfolding close_channels
close_channels_step p c rest t t' h = elim (Option-cases (close_channel c t)) [
  | inl e ↦ absurd (ground (arith, e))
  | inr (t₁, e) ↦ (t₁, e, ground (arith, e))
]

close_channels_closes :
    (cs : Map ℕ) (t t' : Transport)
    → close_channels cs t ≡ some t'
    → StaysClosed t t'
      × ((p : Str) (c : ℕ) → lookup p cs ≡ some c → (t'.channels c).is_closed ≡ true)
unfolding close_channels lookup
close_channels_closes [] t t' h = ((λ c k. ground arith), (λ p c e. cc))
close_channels_closes ((q, d) ∷ rest) t t' h =
    let (t₁, first, others) = close_channels_step q d rest t t' h in
    let (stays, closes) = close_channels_closes rest t₁ t' others in
    (
      (λ c k. stays c (close_channel-StaysClosed d t t₁ first c k)),
      (λ p c e. elim (Bool-cases (str_eq q p)) [
        | inl hit ↦ stays c (ground (arith, close_channel_closes d t t₁ first, hit, e))
        | inr miss ↦ closes p c (ground (arith, miss, e))
      ]),
    )

close_peers_step :
    (n : Str) (cs : Map ℕ) (rest : Map (Map ℕ)) (t t' : Transport)
    → close_peers ((n, cs) ∷ rest) t ≡ some t'
    → (t₁ : Transport) × (close_channels cs t ≡ some t₁) × (close_peers rest t₁ ≡ some t')
unfolding close_peers
close_peers_step n cs rest t t' h = elim (Option-cases (close_channels cs t)) [
  | inl e ↦ absurd (ground (arith, e))
  | inr (t₁, e) ↦ (t₁, e, ground (arith, e))
]

close_peers_closes :
    (l : Map (Map ℕ)) (t t' : Transport)
    → close_peers l t ≡ some t'
    → StaysClosed t t'
      × ((n p : Str) (c : ℕ)
          → lookup p (lookup_or [] n l) ≡ some c
          → (t'.channels c).is_closed ≡ true)
unfolding close_peers lookup
close_peers_closes [] t t' h = ((λ c k. ground arith), (λ n p c e. cc))
close_peers_closes ((m, cs) ∷ rest) t t' h =
    let (t₁, first, others) = close_peers_step m cs rest t t' h in
    let (kept, closed) = close_channels_closes cs t t₁ first in
    let (stays, closes) = close_peers_closes rest t₁ t' others in
    (
      (λ c k. stays c (kept c k)),
      (λ n p c e. elim (Bool-cases (str_eq m n)) [
        | inl hit ↦ stays c (closed p c (ground (arith, hit, e)))
        | inr miss ↦ closes n p c (ground (arith, miss, e))
      ]),
    )

-- A channel that a goroutine may hold: of an open protocol, or to a peer.
abbrev Held : ℕ → Transport → Type 0
Held c t =
    ((p : Str) × (lookup p t.ins ≡ some c)) ⊎ ((n : Str) × (p : Str) × (out_channel n p t ≡ some c))

stop_step :
    (t t' : Transport)
    → t.is_started ≡ true
    → (err : Option Error) → stop t ≡ some (t', err)
    → (t₁ : Transport) × (t₂ : Transport) × (close_channels t.ins t ≡ some t₁)
      × (close_peers t.outs t₁ ≡ some t₂)
      × (t'.channels ≡ t₂.channels)
unfolding stop
stop_step t t' started err h = elim (Option-cases (close_channels t.ins t)) [
  | inl e ↦ absurd (ground (arith, e))
  | inr (t₁, e) ↦ elim (Option-cases (close_peers t.outs t₁)) [
    | inl e' ↦ absurd (ground (arith, e, e'))
    | inr (t₂, e') ↦ (t₁, t₂, e, e', ground (arith, e, e'))
  ]
]

stop_panics :
    (t t' : Transport) (err : Option Error) (c : ℕ) (m : NodeMessage)
    → t.is_started ≡ true
    → stop t ≡ some (t', err)
    → Held c t
    → try_send c m t' ≡ none
unfolding try_send
stop_panics t t' err c m started h held =
    let (t₁, t₂, ins, outs, same) = stop_step t t' started err h in
    let (kept, closed) = close_channels_closes t.ins t t₁ ins in
    let (stays, closes) = close_peers_closes t.outs t₁ t₂ outs in
    let dead : (t₂.channels c).is_closed ≡ true = elim held [
      | inl (p, e) ↦ stays c (closed p c e)
      | inr (n, p, e) ↦ closes n p c e
    ] in
    ground (arith, same, dead)

self_disconnect-StaysClosed :
    (p : Str) (t t' : Transport) → self_disconnect p t ≡ some t' → StaysClosed t t'
unfolding self_disconnect close_channel
self_disconnect-StaysClosed p t t' h = λ c k. ground arith

close_protocol_closes :
    (p : Str) (t t' : Transport) (c : ℕ)
    → lookup p t.ins ≡ some c
    → close_protocol p t ≡ some (t', none)
    → (t'.channels c).is_closed ≡ true
unfolding close_protocol
close_protocol_closes p t t' c e h = elim (Option-cases (close_channel c t)) [
  | inl f ↦ absurd (ground (arith, e, f))
  | inr (t₁, f) ↦
      let t₂ : Transport = record t₁ { ins = delete p t₁.ins } in
      elim (Option-cases (self_disconnect p t₂)) [
        | inl g ↦ absurd (ground (arith, e, f, g))
        | inr (t₃, g) ↦
            let kept = self_disconnect-StaysClosed p t₂ t₃ g c (close_channel_closes c t t₁ f) in
            ground (arith, e, f, g, kept)
      ]
]

-- A call that closes a channel which a goroutine holds: `Stop` any channel of the maps, and `Close`
-- the incoming one of its protocol.
abbrev Closes : ℕ → Transport → Transport → Type 0
Closes c t t' =
    ((t.is_started ≡ true) × ((err : Option Error) × (stop t ≡ some (t', err))) × Held c t)
    ⊎ ((p : Str) × (lookup p t.ins ≡ some c) × (close_protocol p t ≡ some (t', none)))

-- Once `Stop` of a started transport has run, a send into any channel that stood in the maps panics: that of a `Send` which
-- was between its two steps, and those of the handler of a stream, at the next message that decodes,
-- and of the node's own worker. Once `Close` of a protocol has run, so do the sends of these two, into
-- the incoming channel of that protocol.
pub held_channel_panics :
    (bytes : Str) (t t' : Transport) (c : ℕ) (unmarshal : Str → Option NodeMessage)
    (m : NodeMessage)
    → Closes c t t'
    → unmarshal bytes ≡ some m
    → (try_send c m t' ≡ none) × (handler_round unmarshal c bytes t' ≡ none)
unfolding handler_round try_send
held_channel_panics bytes t t' c unmarshal m (inl (started, (err, h), held)) u =
    ground (arith, stop_panics t t' err c m started h held, u)
held_channel_panics bytes t t' c unmarshal m (inr (p, e, h)) u =
    ground (arith, close_protocol_closes p t t' c e h, u)
