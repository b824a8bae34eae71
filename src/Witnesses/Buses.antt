-- ===== src/Witnesses/Buses.antt =====
-- The theorems on the event bus, at a bus with one subscriber to one topic.
use lucinda.Base.{
  some, if◌then◌else◌, arith, ◌≡◌, refl, Str, str_eq, lit, [], ◌∷◌, none, lookup, true, insert,
}
use lucinda.Messages.{Payload}
use lucinda.EventBus.{
  Event, Bus, new_event_bus, subscribe, put_channel, publish_event, release, unsubscribe,
}
use lucinda.EventBus.Unsubscribe.{has, shut, without, unsubscribe-without}
use lucinda.EventBus.Closing.{publish_event-release}

abbrev topic : Str
topic = lit "task.done"

abbrev event : Event
event = record { type = topic; payload = Payload.decoded (lit "done") }

-- The channel 0 has room for one event.
abbrev listening : Bus
listening = (subscribe topic 1 new_event_bus).0

abbrev notified : Bus
notified = record listening {
  channels =
      put_channel 0 (record (listening.channels 0) { buffer = event ∷ [] }) listening.channels;
}

abbrev released : Bus
released = record listening {
  channels = put_channel 0 (record (listening.channels 0) { is_closed = true }) listening.channels;
}

publish_event-release_example : publish_event topic event released ≡ none
unfolding release subscribe new_event_bus lookup insert str_eq
publish_event-release_example = publish_event-release topic event 0 [] listening released refl refl

-- Three channels of the topic, of which the first one leaves.
abbrev three : Bus
three = (subscribe topic 1 (subscribe topic 1 listening).0).0

unsubscribe-without_example :
    let b' = if has 0 (0 ∷ 1 ∷ 2 ∷ []) then shut 0 three else three in
    unsubscribe topic 0 three
    ≡ some (record b' { subscribers = insert topic (without 0 (0 ∷ 1 ∷ 2 ∷ [])) three.subscribers })
unfolding subscribe new_event_bus lookup insert str_eq
unsubscribe-without_example =
    unsubscribe-without topic 0 (0 ∷ 1 ∷ 2 ∷ []) three refl (omega arith) refl
