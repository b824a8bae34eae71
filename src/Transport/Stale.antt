-- ===== src/Transport/Stale.antt =====
-- pkg/infrastructure_layer/transport/transporters/host.go: the worker of a peer that comes back.
use lucinda.Base.{
  ℕ, suc, ◌<◌, ◌≡◌, refl, ◌∙◌, Str, str_eq_refl, lookup, lookup_or, lookup-insert, lookup-delete,
  insert, delete, [], ◌∷◌, ◌++◌, none, some, true, false, arith, ==_iff, ℤ,
}
use lucinda.Messages.{NodeMessage}
use lucinda.Transport.Defs.{
  Transport, send_worker, close_until_panic, close_channel, out_channel, try_send, send,
  put_channel, make_channel, get_or_create_out_channel, remove_out_channel, clean_outbound_channels,
}
use lucinda.Transport.Workers.{receive, send_worker_round, ends, ended}

-- The transport without the peer, whose only channel is closed.
abbrev cleaned : Str → ℕ → Transport → Transport
cleaned to c t = record t {
  channels = put_channel c (record (t.channels c) { is_closed = true }) t.channels;
  outs = delete to t.outs;
}

clean_one :
    (to proto : Str) (c : ℕ) (t : Transport)
    → lookup to t.outs ≡ some ((proto, c) ∷ [])
    → (t.channels c).is_closed ≡ false
    → clean_outbound_channels to t ≡ cleaned to c t
unfolding clean_outbound_channels close_until_panic close_channel
clean_one to proto c t outs open_c =
    rw (outs, clean_outbound_channels, close_until_panic, close_channel, open_c) refl

-- The transport with a new channel to the peer, and the same with a message in it.
abbrev opened : Str → Str → Transport → Transport
opened to proto t = record t {
  channels =
      put_channel t.next (record { buffer = []; capacity = t.outs_length; is_closed = false })
        t.channels;
  next = suc t.next;
  outs = insert to (insert proto t.next (lookup_or [] to t.outs)) t.outs;
  workers = send_worker to proto t.next ∷ t.workers;
}

abbrev sent : Str → NodeMessage → Transport → Transport
sent to m t =
    let t₁ = opened to m.protocol t in
    record t₁ {
      channels =
          put_channel t.next
            (record (t₁.channels t.next) { buffer = (t₁.channels t.next).buffer ++ m ∷ [] })
            t₁.channels;
    }

opened_absent :
    (to proto : Str) (t : Transport)
    → lookup to t.outs ≡ none
    → get_or_create_out_channel to proto t ≡ (opened to proto t, t.next)
unfolding get_or_create_out_channel make_channel lookup insert
opened_absent to proto t absent = rw (absent, get_or_create_out_channel) refl

-- A first message to a peer.
send_first :
    (to : Str) (m : NodeMessage) (t : Transport)
    → lookup to t.outs ≡ none
    → 0 < t.outs_length
    → (send to m t ≡ some (sent to m t, none))
      × (lookup to (sent to m t).outs ≡ some ((m.protocol, t.next) ∷ []))
      × (((sent to m t).channels t.next).buffer ≡ m ∷ [])
      × (((sent to m t).channels t.next).is_closed ≡ false)
      × ((d : ℕ) → d < t.next → (sent to m t).channels d ≡ t.channels d)
unfolding send try_send insert lookup
send_first to m t absent room = (
  ground (arith, opened_absent to m.protocol t absent, ==_iff t.next t.next),
  ground (
    arith,
    lookup-insert to to (insert m.protocol t.next (lookup_or [] to t.outs)) t.outs,
    str_eq_refl to,
  ),
  ground (arith, ==_iff t.next t.next),
  ground (arith, ==_iff t.next t.next),
  λ d older. ground (arith, ==_iff t.next d),
)

receive_at_end :
    (c : ℕ) (t : Transport)
    → (t.channels c).is_closed ≡ true
    → (t.channels c).buffer ≡ []
    → receive c t ≡ (t, ended)
unfolding receive
receive_at_end c t dead empty = rw (empty, dead, receive) refl

-- The worker of a closed and empty channel.
worker_ends :
    (to proto : Str) (c : ℕ) (now : ℤ) (t : Transport)
    → (t.channels c).is_closed ≡ true
    → (t.channels c).buffer ≡ []
    → send_worker_round true true true now to proto c t ≡ (remove_out_channel to proto t, ends)
unfolding send_worker_round
worker_ends to proto c now t dead empty = ground (arith, receive_at_end c t dead empty)

out_channel_only :
    (to proto : Str) (c : ℕ) (t : Transport)
    → lookup to t.outs ≡ some ((proto, c) ∷ [])
    → out_channel to proto t ≡ some c
unfolding lookup
out_channel_only to proto c t h = ground (arith, h, str_eq_refl proto)

remove_only :
    (to proto : Str) (c : ℕ) (t : Transport)
    → lookup to t.outs ≡ some ((proto, c) ∷ [])
    → (out_channel to proto (remove_out_channel to proto t) ≡ none)
      × ((remove_out_channel to proto t).channels ≡ t.channels)
      × ((remove_out_channel to proto t).workers ≡ t.workers)
unfolding remove_out_channel delete lookup
remove_only to proto c t h =
    ground (arith, h, str_eq_refl proto, lookup-delete to to t.outs, str_eq_refl to)

-- A peer disconnects whose one channel, of the message's protocol, was open and empty, and the message
-- is sent to it before the worker of the closed channel has come to its end: the clean-up of that
-- worker takes the new channel out of the map, while the new channel is open, holds the message, and
-- stands with the worker that was started for it.
pub stale_worker_removes :
    (to : Str) (c : ℕ) (m : NodeMessage) (now : ℤ) (t : Transport)
    → lookup to t.outs ≡ some ((m.protocol, c) ∷ [])
    → (t.channels c).is_closed ≡ false
    → (t.channels c).buffer ≡ []
    → c < t.next
    → 0 < t.outs_length
    → (t₂ : Transport) × (t₃ : Transport) × (send to m (clean_outbound_channels to t)
        ≡ some (t₂, none))
      × (out_channel to m.protocol t₂ ≡ some t.next)
      × (send_worker_round true true true now to m.protocol c t₂ ≡ (t₃, ends))
      × (out_channel to m.protocol t₃ ≡ none)
      × ((t₃.channels t.next).buffer ≡ m ∷ [])
      × ((t₃.channels t.next).is_closed ≡ false)
      × (t₃.workers ≡ send_worker to m.protocol t.next ∷ t.workers)
stale_worker_removes to c m now t outs open_c empty fresh room =
    let t₁ = cleaned to c t in
    let gone : lookup to t₁.outs ≡ none =
      lookup-delete to to t.outs ∙ ground (arith, str_eq_refl to) in
    let (ran, mapped, holds, is_open, others) = send_first to m t₁ gone room in
    let t₂ = sent to m t₁ in
    let old : t₂.channels c ≡ record (t.channels c) { is_closed = true } =
      others c fresh ∙ ground (arith, ==_iff c c) in
    let (unmapped, same, kept) = remove_only to m.protocol t.next t₂ mapped in
    (
      t₂,
      remove_out_channel to m.protocol t₂,
      rw (clean_one to m.protocol c t outs open_c) ran,
      out_channel_only to m.protocol t.next t₂ mapped,
      worker_ends to m.protocol c now t₂ (rw old refl) (rw old empty),
      unmapped,
      rw same holds,
      rw same is_open,
      kept,
    )
