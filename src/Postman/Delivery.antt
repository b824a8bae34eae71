-- ===== src/Postman/Delivery.antt =====
-- internal/task_management_layer/task_postman/postman.go: the loop of `Watch` against the event bus.
use lucinda.Base.{
  ℕ, ◌<◌, ◌≡◌, refl, ◌∙◌, lookup_or, List, [], ◌∷◌, ◌++◌, Option, none, some, false, length, ltb,
  if◌then◌else◌, arith, ==_iff, List-cases, Bool-cases, inl, inr,
}
use lucinda.Messages.{EventType, Payload, topic_name}
use lucinda.EventBus.{Bus, event, Event, receive, offer, offer_all, publish_event, put_channel}
use lucinda.Postman.{publish, watch_round}

-- What may happen to the channel of a loop: an event is published on its topic, or the loop goes
-- round.
pub data Act : Type 0 where
  publishes : Event → Act
  handles : Act

module _ {ℓ} {W : Type ℓ} (handler : Payload → W → W) (topic : EventType) (c : ℕ) where
  -- The code.
  unfoldable pub run_act : Act → Bus × W → Option (Bus × W)
  unfolding publish watch_round
  run_act (publishes e) (b, w) = elim (publish topic e b) [ none ↦ none | some b' ↦ some (b', w) ]
  run_act handles s = some (watch_round handler c s).0

  unfoldable pub run_acts : List Act → Bus × W → Option (Bus × W)
  unfolding run_act
  run_acts [] s = some s
  run_acts (a ∷ rest) s = elim (run_act a s) [ none ↦ none | some s' ↦ run_acts rest s' ]

-- The specification: a queue that takes `capacity` events, and what the handler has made.
module _ {ℓ} {W : Type ℓ} (handler : Payload → W → W) (capacity : ℕ) where
  abbrev pub queue_act : Act → List Event × W → List Event × W
  queue_act (publishes e) (q, w) = (if ltb (length q) capacity then q ++ e ∷ [] else q, w)
  queue_act handles ([], w) = ([], w)
  queue_act handles (e ∷ q, w) = (q, handler e.payload w)

  abbrev pub queue_acts : List Act → List Event × W → List Event × W
  queue_acts [] s = s
  queue_acts (a ∷ rest) s = queue_acts rest (queue_act a s)

-- The channel of the loop is open, and no other channel has the topic.
pub record Serves (topic : EventType) (c : ℕ) (b : Bus) : Type 0 where
  pub is_open : (b.channels c).is_closed ≡ false
  pub alone : lookup_or [] (topic_name topic) b.subscribers ≡ c ∷ []

abbrev pub contents {ℓ} : {W : Type ℓ} → ℕ → Bus × W → List Event × W
contents c (b, w) = ((b.channels c).buffer, w)

-- The bus with an event more in a channel.
abbrev pub appended : Event → ℕ → Bus → Bus
appended e c b = record b {
  channels =
      put_channel c (record (b.channels c) { buffer = (b.channels c).buffer ++ e ∷ [] }) b.channels;
}

publish_served :
    (topic : EventType) (c : ℕ) (e : Event) (b : Bus)
    → Serves topic c b
    → publish topic e b
      ≡ some
          (if ltb (length (b.channels c).buffer) (b.channels c).capacity then appended e c b else b)
unfolding publish publish_event offer_all offer
publish_served topic c e b v =
    elim (Bool-cases (ltb (length (b.channels c).buffer) (b.channels c).capacity)) [
      | inl h ↦ rw (v.alone, offer_all, offer, v.is_open, h) refl
      | inr h ↦ rw (v.alone, offer_all, offer, v.is_open, h) refl
    ]

-- The same where the channel has room.
pub publish_room :
    (topic : EventType) (c : ℕ) (e : Event) (b : Bus)
    → Serves topic c b
    → length (b.channels c).buffer < (b.channels c).capacity
    → (publish topic e b ≡ some (appended e c b))
      × (((appended e c b).channels c).buffer ≡ (b.channels c).buffer ++ e ∷ [])
publish_room topic c e b v room =
    (publish_served topic c e b v ∙ ground arith, ground (arith, ==_iff c c))

-- The bus with the events of a channel replaced.
abbrev pub holding : List Event → ℕ → Bus → Bus
holding l c b = record b {
  channels = put_channel c (record (b.channels c) { buffer = l }) b.channels;
}

receive_taken :
    (c : ℕ) (b : Bus) (e : Event) (rest : List Event)
    → (b.channels c).buffer ≡ e ∷ rest
    → receive c b ≡ (holding rest c b, event e)
unfolding receive
receive_taken c b e rest h = rw (h, receive) refl

pub round_taken {ℓ} :
    {W : Type ℓ} (handler : Payload → W → W) (c : ℕ) (b : Bus) (w : W) (e : Event)
    (rest : List Event)
    → (b.channels c).buffer ≡ e ∷ rest
    → (watch_round handler c (b, w)).0 ≡ (holding rest c b, handler e.payload w)
unfolding watch_round
round_taken handler c b w e rest h = ground (arith, receive_taken c b e rest h)

module _ {ℓ} {W : Type ℓ} (handler : Payload → W → W) (topic : EventType) (c : ℕ) where
  -- What one act comes to, on a channel that serves its topic.
  abbrev Follows : Act → Bus × W → Bus × W → Type ℓ
  Follows a s t =
      (run_act handler topic c a s ≡ some t)
      × Serves topic c t.0
      × ((t.0.channels c).capacity ≡ (s.0.channels c).capacity)
      × (contents c t ≡ queue_act handler (s.0.channels c).capacity a (contents c s))

  run_act_lem : (a : Act) (b : Bus) (w : W) → Serves topic c b → (t : Bus × W) × Follows a (b, w) t
  unfolding run_act watch_round receive
  run_act_lem (publishes e) b w v =
      elim (Bool-cases (ltb (length (b.channels c).buffer) (b.channels c).capacity)) [
        | inl h ↦ (
          (appended e c b, w),
          ground (arith, publish_served topic c e b v, ==_iff c c, v.is_open, v.alone, h),
        )
        | inr h ↦ ((b, w), ground (arith, publish_served topic c e b v, h))
      ]
  run_act_lem handles b w v = elim (List-cases (b.channels c).buffer) [
    | inl h ↦ ((b, w), ground (arith, h))
    | inr (e, rest, h) ↦ (
      (holding rest c b, handler e.payload w),
      ground (arith, h, round_taken handler c b w e rest h, ==_iff c c, v.is_open, v.alone),
    )
  ]

  -- As long as its channel is open and has its topic for itself, a loop of `Watch` and the bus are
  -- together a queue with a handler, whatever happens in what order: no act panics, an event that is
  -- published goes to the end of the queue if it has room and is lost if not, and each round hands
  -- the first event of the queue to the handler.
  pub run_acts-queue_acts :
      (acts : List Act) (b : Bus) (w : W)
      → Serves topic c b
      → (t : Bus × W) × (run_acts handler topic c acts (b, w) ≡ some t)
        × (contents c t ≡ queue_acts handler (b.channels c).capacity acts (contents c (b, w)))
  unfolding run_acts
  run_acts-queue_acts [] b w v = ((b, w), refl, refl)
  run_acts-queue_acts (a ∷ rest) b w v =
      let (s, done) = run_act_lem a b w v in
      let (t, ran', held') = run_acts-queue_acts rest s.0 s.1 done.1 in
      (t, rw (done.0, run_acts) ran', held' ∙ rw (done.2, done.3) refl)
