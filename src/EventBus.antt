-- ===== src/EventBus.antt =====
-- pkg/infrastructure_layer/eventbus/eventbus.go: topics, subscribers and their channels. A topic is
-- its string, a channel an address. A panic of the code, a send on a closed channel or a second
-- close, is `none`. Of an event, its type and its data are kept.
pub mod Delivery
pub mod Closing
pub mod Unsubscribe
use lucinda.Base.{
  ℕ, zero, suc, ◌+◌, Str, Map, lookup, lookup_or, insert, List, [], ◌∷◌, ◌++◌, Option, none, some,
  Bool, true, false, length, ltb, ◌==◌, if◌then◌else◌,
}
use lucinda.Messages.{Payload}

pub record Event : Type 0 where
  pub type : Str
  pub payload : Payload

pub record Channel : Type 0 where
  pub buffer : List Event
  pub capacity : ℕ
  pub is_closed : Bool

-- `next` is the first address that no channel has.
pub record Bus : Type 0 where
  pub subscribers : Map (List ℕ)
  pub channels : ℕ → Channel
  pub next : ℕ

abbrev no_channel : ℕ → Channel
no_channel c = record { buffer = []; capacity = 0; is_closed = false }

unfoldable pub new_event_bus : Bus
new_event_bus = record { subscribers = []; channels = no_channel; next = 0 }

abbrev pub put_channel : ℕ → Channel → (ℕ → Channel) → ℕ → Channel
put_channel c x channels d = if c == d then x else channels d

-- The channel that `Subscribe` returns comes second. A negative length panics; it is no ℕ.
unfoldable pub subscribe : Str → ℕ → Bus → Bus × ℕ
subscribe topic capacity b = (
  record {
    subscribers = insert topic (lookup_or [] topic b.subscribers ++ b.next ∷ []) b.subscribers;
    channels =
        put_channel b.next (record { buffer = []; capacity = capacity; is_closed = false })
          b.channels;
    next = suc b.next;
  },
  b.next,
)

unfoldable pub close : ℕ → Bus → Option Bus
close c b =
    let x = b.channels c in
    if x.is_closed
    then none
    else some (record b { channels = put_channel c (record x { is_closed = true }) b.channels })

-- The send of one round: a full channel is skipped.
unfoldable pub offer : Event → ℕ → Bus → Option Bus
offer e c b =
    let x = b.channels c in
    if x.is_closed
    then none
    else if ltb (length x.buffer) x.capacity
    then some (record b {
      channels = put_channel c (record x { buffer = x.buffer ++ e ∷ [] }) b.channels;
    })
    else some b

unfoldable pub offer_all : Event → List ℕ → Bus → Option Bus
unfolding offer
offer_all e [] b = some b
offer_all e (c ∷ rest) b = elim (offer e c b) [ none ↦ none | some b' ↦ offer_all e rest b' ]

-- `Publish` on this bus, whose result is always nil.
unfoldable pub publish_event : Str → Event → Bus → Option Bus
unfolding offer_all
publish_event topic e b = offer_all e (lookup_or [] topic b.subscribers) b

unfoldable pub close_all : List ℕ → Bus → Option Bus
unfolding close
close_all [] b = some b
close_all (c ∷ rest) b = elim (close c b) [ none ↦ none | some b' ↦ close_all rest b' ]

unfoldable pub close_topics : Map (List ℕ) → Bus → Option Bus
unfolding close_all
close_topics [] b = some b
close_topics ((topic, channels) ∷ rest) b = elim (close_all channels b) [
  | none ↦ none
  | some b' ↦ close_topics rest b'
]

-- The subscribers stay in the map.
unfoldable pub release : Bus → Option Bus
unfolding close_topics
release b = close_topics b.subscribers b

-- What a receive gives: an event, the end of a closed channel, or nothing yet.
pub data Received : Type 0 where
  event : Event → Received
  ended blocked : Received

unfoldable pub receive : ℕ → Bus → Bus × Received
receive c b = elim (b.channels c).buffer [
  | [] ↦ (b, if (b.channels c).is_closed then ended else blocked)
  | e ∷ rest ↦ (
    record b { channels = put_channel c (record (b.channels c) { buffer = rest }) b.channels },
    event e,
  )
]

abbrev pub last_of : ℕ → List ℕ → ℕ
last_of c [] = c
last_of c (d ∷ rest) = last_of d rest

-- The loop of `UnSubscribe`, with the number of rounds left. It ranges over the old length of an
-- array that `append` shifts in place: `before` and the next argument are that array, cut at the
-- index of the loop; `left` is the slice that the map holds.
unfoldable pub unsubscribe_loop : ℕ → ℕ → List ℕ → List ℕ → List ℕ → Bus → Option (List ℕ × Bus)
unfolding close
unsubscribe_loop zero c before here left b = some (left, b)
unsubscribe_loop (suc n) c before [] left b = some (left, b)
unsubscribe_loop (suc n) c before (d ∷ []) left b = elim (d == c) [
  | false ↦ unsubscribe_loop n c (before ++ d ∷ []) [] left b
  | true ↦ elim (close c b) [
    | none ↦ none
    | some b' ↦ unsubscribe_loop n c (before ++ d ∷ []) [] before b'
  ]
]
unsubscribe_loop (suc n) c before (d ∷ e ∷ rest) left b = elim (d == c) [
  | false ↦ unsubscribe_loop n c (before ++ d ∷ []) (e ∷ rest) left b
  | true ↦ elim (close c b) [
    | none ↦ none
    | some b' ↦
        unsubscribe_loop n c (before ++ e ∷ []) (rest ++ last_of e rest ∷ []) (before ++ (e ∷ rest))
          b'
  ]
]

unfoldable pub unsubscribe : Str → ℕ → Bus → Option Bus
unfolding unsubscribe_loop
unsubscribe topic c b = elim (lookup topic b.subscribers) [
  | none ↦ some b
  | some l ↦ elim (unsubscribe_loop (length l) c [] l l b) [
    | none ↦ none
    | some (left, b') ↦ some (record b' { subscribers = insert topic left b'.subscribers })
  ]
]
