-- ===== src/Board/Network.antt =====
-- internal/task_workflow_layer/task_board/board.go: a message of another node on its way through the
-- stream handler of the transport, the loop of `Deliver` and the loop of `Watch` to the handler.
use lucinda.Base.{
  ℕ, ◌<◌, ◌≡◌, refl, ◌∙◌, ap, Str, List, [], ◌∷◌, ◌++◌, Option, some, true, false, arith, ==_iff,
}
use lucinda.Messages.{Payload, NodeMessage}
use lucinda.EventBus.{Bus}
use lucinda.Transport.Defs.{Transport, put_channel, try_send}
use lucinda.Transport.Workers
use lucinda.Postman.{new_event, publish, deliver_round, watch_round}
use lucinda.Postman.Delivery.{Serves, appended, publish_room, round_taken}
use lucinda.Board.Defs.{World, Env}
use lucinda.Board.Handlers.{on_event}
use lucinda.Board.Protocol.{on_event_decoded}

-- A channel of the transport that waits for a message.
pub record Idle (i : ℕ) (t : Transport) : Type 0 where
  pub is_open : (t.channels i).is_closed ≡ false
  pub empty : (t.channels i).buffer ≡ []
  pub room : 0 < (t.channels i).capacity

-- The transport with that message alone in the channel.
abbrev received : NodeMessage → ℕ → Transport → Transport
received m i t = record t {
  channels = put_channel i (record (t.channels i) { buffer = m ∷ [] }) t.channels;
}

handler_round-Idle :
    (unmarshal : Str → Option NodeMessage) (i : ℕ) (bytes : Str) (m : NodeMessage) (t : Transport)
    → unmarshal bytes ≡ some m
    → Idle i t
    → Workers.handler_round unmarshal i bytes t ≡ some (received m i t)
unfolding Workers.handler_round try_send
handler_round-Idle unmarshal i bytes m t h v = ground (arith, h, v.is_open, v.empty, v.room)

-- The transport with the message taken out again.
abbrev taken : List NodeMessage → ℕ → Transport → Transport
taken rest i t = record t {
  channels = put_channel i (record (t.channels i) { buffer = rest }) t.channels;
}

receive_next :
    (i : ℕ) (m : NodeMessage) (rest : List NodeMessage) (t : Transport)
    → (t.channels i).buffer ≡ m ∷ rest
    → Workers.receive i t ≡ (taken rest i t, Workers.message m)
unfolding Workers.receive
receive_next i m rest t h = rw (h, Workers.receive) refl

deliver_round_next :
    (i : ℕ) (m : NodeMessage) (t t' : Transport) (b b' : Bus)
    → Workers.receive i t ≡ (t', Workers.message m)
    → publish m.topic (new_event m.topic m.body) b ≡ some b'
    → deliver_round i (t, b) ≡ some ((t', b'), true)
unfolding deliver_round
deliver_round_next i m t t' b b' h p = ground (arith, h, p)

received_buffer :
    (m : NodeMessage) (i : ℕ) (t : Transport) → ((received m i t).channels i).buffer ≡ m ∷ []
received_buffer m i t = ground (arith, ==_iff i i)

-- A message that another node sent comes out of JSON with a body that is none of the program's own
-- types. Where the transport's channel is open and both channels are empty and of a capacity above 0,
-- and the topic has one loop, the stream handler, the loop of
-- `Deliver` and the loop of `Watch` hand it on to the handler of the board without an error, and
-- the board's world is as it was: no advertisement, bid or result of another node has an effect.
pub network_message_ignored :
    (env : Env) (unmarshal : Str → Option NodeMessage) (i c : ℕ) (bytes text : Str)
    (m : NodeMessage) (t : Transport) (b : Bus) (w : World)
    → unmarshal bytes ≡ some m
    → m.body ≡ Payload.decoded text
    → Idle i t
    → Serves m.topic c b
    → (b.channels c).buffer ≡ []
    → 0 < (b.channels c).capacity
    → (t₁ : Transport) × (t₂ : Transport) × (b' : Bus) × (Workers.handler_round unmarshal i bytes t
        ≡ some t₁)
      × (deliver_round i (t₁, b) ≡ some ((t₂, b'), true))
      × ((b'.channels c).buffer ≡ new_event m.topic m.body ∷ [])
      × ((watch_round (on_event env m.topic) c (b', w)).0.1 ≡ w)
unfolding new_event
network_message_ignored env unmarshal i c bytes text m t b w h body v s empty room =
    let e = new_event m.topic m.body in
    let t₁ = received m i t in
    let t₂ = taken [] i t₁ in
    let b' = appended e c b in
    let there = publish_room m.topic c e b s (ground (arith, empty)) in
    let held = there.1 ∙ ap (λ l. l ++ e ∷ []) empty in
    (
      t₁,
      t₂,
      b',
      handler_round-Idle unmarshal i bytes m t h v,
      deliver_round_next i m t₁ t₂ b b' (receive_next i m [] t₁ (received_buffer m i t)) there.0,
      held,
      ap (λ x. x.1) (round_taken (on_event env m.topic) c b' w e [] held)
          ∙ ap (λ x. on_event env m.topic x w) body
          ∙ on_event_decoded env m.topic text w,
    )
