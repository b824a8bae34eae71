-- ===== src/Postman.antt =====
-- internal/task_management_layer/task_postman/postman.go: the loops between the event bus, the
-- transport and the handlers. A handler acts on a state of any type, and its error is only logged.
-- Each round of a loop is one step; the contexts are not cancelled.
pub mod Delivery
use lucinda.Base.{ℕ, zero, suc, Str, List, [], ◌∷◌, Option, none, some, Bool, true, false}
use lucinda.Messages.{EventType, topic_name, Payload, NodeMessage}
use lucinda.EventBus.{Bus, Event, event, ended, blocked, subscribe, receive, publish_event}
use lucinda.Transport.Defs.{Transport, incoming}
use lucinda.Transport.Workers

abbrev pub topic_len : ℕ
topic_len = 100

-- `Watch`: the channel of the new loop comes second.
unfoldable pub watch : EventType → Bus → Bus × ℕ
unfolding subscribe topic_name
watch topic b = subscribe (topic_name topic) topic_len b

unfoldable pub new_event : EventType → Payload → Event
unfolding topic_name
new_event type payload = record { type = topic_name type; payload = payload }

-- `Publish`
unfoldable pub publish : EventType → Event → Bus → Option Bus
unfolding publish_event topic_name
publish topic e b = publish_event (topic_name topic) e b

-- A round of the loop of `Watch`; the flag says whether the loop goes on.
unfoldable pub watch_round {ℓ} : {W : Type ℓ} → (Payload → W → W) → ℕ → Bus × W → (Bus × W) × Bool
unfolding receive
watch_round handler c (b, w) =
    let (b', r) = receive c b in
    elim r [
      | event e ↦ ((b', handler e.payload w), true)
      | ended ↦ ((b', w), false)
      | blocked ↦ ((b', w), true)
    ]

-- `Deliver`: the channel that its loop reads, if the protocol is open.
unfoldable pub deliver : Str → Transport → Option ℕ
unfolding incoming
deliver proto t = incoming proto t

-- A round of the loop of `Deliver`: the body goes to the topic that the message names.
unfoldable pub deliver_round : ℕ → Transport × Bus → Option ((Transport × Bus) × Bool)
unfolding Workers.receive publish new_event
deliver_round c (t, b) =
    let (t', r) = Workers.receive c t in
    elim r [
      | Workers.message m ↦ elim (publish m.topic (new_event m.topic m.body) b) [
        | none ↦ none
        | some b' ↦ some ((t', b'), true)
      ]
      | Workers.ended ↦ some ((t', b), false)
      | Workers.blocked ↦ some ((t', b), true)
    ]
