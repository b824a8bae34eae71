-- ===== src/EventBus/Delivery.antt =====
-- pkg/infrastructure_layer/eventbus/eventbus.go: what reaches a channel.
use lucinda.Base.{
  ◌≡◌, ℕ, ◌≤◌, Str, lookup_or, List, [], ◌∷◌, some, length, arith, length-append, Option-cases, inl,
  inr, refl, sym, ◌∙◌,
}
use lucinda.EventBus.{Event, Bus, offer, offer_all, publish_event}

offer_fits :
    (e : Event) (c d : ℕ) (b b' : Bus)
    → offer e c b ≡ some b'
    → length (b.channels d).buffer ≤ (b.channels d).capacity
    → length (b'.channels d).buffer ≤ (b'.channels d).capacity
unfolding offer
offer_fits e c d b b' h fits = ground (arith, length-append (b.channels c).buffer (e ∷ []))

next_of :
    (e : Event) (c : ℕ) (cs : List ℕ) (b b₁ : Bus)
    → offer e c b ≡ some b₁
    → offer_all e (c ∷ cs) b ≡ offer_all e cs b₁
unfolding offer_all
next_of e c cs b b₁ step = rw (step, offer_all) refl

rest_of :
    (e : Event) (c : ℕ) (cs : List ℕ) (b b₁ b' : Bus)
    → offer e c b ≡ some b₁
    → offer_all e (c ∷ cs) b ≡ some b'
    → offer_all e cs b₁ ≡ some b'
unfolding offer_all
rest_of e c cs b b₁ b' step h = sym (next_of e c cs b b₁ step) ∙ h

offer_all_fits :
    (e : Event) (cs : List ℕ) (d : ℕ) (b b' : Bus)
    → offer_all e cs b ≡ some b'
    → length (b.channels d).buffer ≤ (b.channels d).capacity
    → length (b'.channels d).buffer ≤ (b'.channels d).capacity
unfolding offer_all
offer_all_fits e [] d b b' h fits = ground arith
offer_all_fits e (c ∷ cs) d b b' h fits = elim (Option-cases (offer e c b)) [
  | inl none_left ↦ ground (arith, none_left)
  | inr (b₁, step) ↦
      offer_all_fits e cs d b₁ b' (rest_of e c cs b b₁ b' step h) (offer_fits e c d b b₁ step fits)
]

-- `Publish`, where it does not panic, fills no channel beyond its capacity that was within it
-- before.
publish_event_fits :
    (topic : Str) (e : Event) (d : ℕ) (b b' : Bus)
    → publish_event topic e b ≡ some b'
    → length (b.channels d).buffer ≤ (b.channels d).capacity
    → length (b'.channels d).buffer ≤ (b'.channels d).capacity
unfolding publish_event
publish_event_fits topic e d b b' h fits =
    offer_all_fits e (lookup_or [] topic b.subscribers) d b b' h fits
