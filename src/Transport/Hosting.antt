-- ===== src/Transport/Hosting.antt =====
-- pkg/infrastructure_layer/transport/transporters/host.go: a transport that has a host keeps it, under
-- every method.
use lucinda.Base.{
  ℕ, ◌≡◌, refl, ◌∙◌, Str, Map, [], ◌∷◌, List, Option, none, some, str_eq, lookup, arith,
  Option-cases, Bool-cases, inl, inr,
}
use lucinda.Messages.{NodeMessage}
use lucinda.Transport.Defs.{
  Transport, Error, close_channel, close_channels, close_peers, close_until_panic, make_channel,
  self_out_connect, self_disconnect, open_protocol, close_protocol, stop, send, publish_to,
  get_or_create_out_channel, try_send, remove_out_channel, clean_outbound_channels,
}

abbrev SameHost : Transport → Transport → Type 0
SameHost t t' = t'.has_host ≡ t.has_host

close_channel_host : (c : ℕ) (t t' : Transport) → close_channel c t ≡ some t' → SameHost t t'
unfolding close_channel
close_channel_host c t t' h = ground arith

close_channels_host : (m : Map ℕ) (t t' : Transport) → close_channels m t ≡ some t' → SameHost t t'
unfolding close_channels
close_channels_host [] t t' h = ground arith
close_channels_host ((p, c) ∷ rest) t t' h = elim (Option-cases (close_channel c t)) [
  | inl e ↦ absurd (ground (arith, e))
  | inr (t₁, e) ↦ close_channels_host rest t₁ t' (ground (arith, e)) ∙ close_channel_host c t t₁ e
]

close_peers_host : (l : Map (Map ℕ)) (t t' : Transport) → close_peers l t ≡ some t' → SameHost t t'
unfolding close_peers
close_peers_host [] t t' h = ground arith
close_peers_host ((n, m) ∷ rest) t t' h = elim (Option-cases (close_channels m t)) [
  | inl e ↦ absurd (ground (arith, e))
  | inr (t₁, e) ↦ close_peers_host rest t₁ t' (ground (arith, e)) ∙ close_channels_host m t t₁ e
]

close_until_panic_host : (m : Map ℕ) (t : Transport) → SameHost t (close_until_panic m t).0
unfolding close_until_panic
close_until_panic_host [] t = refl
close_until_panic_host ((p, c) ∷ rest) t = elim (Option-cases (close_channel c t)) [
  | inl e ↦ rw (e, close_until_panic) refl
  | inr (t₁, e) ↦
      rw (e, close_until_panic) (close_until_panic_host rest t₁ ∙ close_channel_host c t t₁ e)
]

pub open_protocol_host : (proto : Str) (t : Transport) → SameHost t (open_protocol proto t).0
unfolding open_protocol make_channel self_out_connect
open_protocol_host proto t = ground arith

pub close_protocol_host :
    (proto : Str) (t t' : Transport) (err : Option Error)
    → close_protocol proto t ≡ some (t', err)
    → SameHost t t'
unfolding close_protocol close_channel self_disconnect
close_protocol_host proto t t' err h = ground arith

pub stop_host : (t t' : Transport) (err : Option Error) → stop t ≡ some (t', err) → SameHost t t'
unfolding stop
stop_host t t' err h = elim (Bool-cases t.is_started) [
  | inr off ↦ ground (arith, off)
  | inl on ↦ elim (Option-cases (close_channels t.ins t)) [
    | inl e ↦ absurd (ground (arith, on, e))
    | inr (t₁, e) ↦ elim (Option-cases (close_peers t.outs t₁)) [
      | inl e' ↦ absurd (ground (arith, on, e, e'))
      | inr (t₂, e') ↦
          ground
            (arith, on, e, e', close_channels_host t.ins t t₁ e, close_peers_host t.outs t₁ t₂ e')
    ]
  ]
]

pub send_host :
    (to : Str) (m : NodeMessage) (t t' : Transport) (err : Option Error)
    → send to m t ≡ some (t', err)
    → SameHost t t'
unfolding send get_or_create_out_channel make_channel try_send
send_host to m t t' err h = ground arith

pub publish_to_host :
    (known : List Str) (m : NodeMessage) (t t' : Transport) (last err : Option Error)
    → publish_to known m (t, last) ≡ some (t', err)
    → SameHost t t'
unfolding publish_to
publish_to_host [] m t t' last err h = ground arith
publish_to_host (p ∷ rest) m t t' last err h = elim (Bool-cases (str_eq p t.node_id)) [
  | inl own ↦ publish_to_host rest m t t' last err (ground (arith, own))
  | inr other ↦ elim (Option-cases (send p m t)) [
    | inl e ↦ absurd (ground (arith, other, e))
    | inr ((t₁, e₁), e) ↦
        publish_to_host rest m t₁ t' (elim e₁ [ none ↦ last | some f ↦ some f ]) err
          (ground (arith, other, e))
        ∙ send_host p m t t₁ e₁ e
  ]
]

pub remove_out_channel_host :
    (to proto : Str) (t : Transport) → SameHost t (remove_out_channel to proto t)
unfolding remove_out_channel
remove_out_channel_host to proto t = ground arith

pub clean_outbound_channels_host :
    (node : Str) (t : Transport) → SameHost t (clean_outbound_channels node t)
unfolding clean_outbound_channels
clean_outbound_channels_host node t = elim (Option-cases (lookup node t.outs)) [
  | inl absent ↦ rw (absent, clean_outbound_channels) refl
  | inr (protos, found) ↦ ground (arith, found, close_until_panic_host protos t)
]
