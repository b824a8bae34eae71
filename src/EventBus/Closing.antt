-- ===== src/EventBus/Closing.antt =====
-- pkg/infrastructure_layer/eventbus/eventbus.go: the bus after `Release`.
use lucinda.Base.{
  ◌≡◌, refl, sym, ap, subst, ◌∙◌, ℕ, Str, Map, lookup, lookup_or, List, [], ◌∷◌, none, some, true,
  str_eq, arith, Bool-cases, Option-cases, inl, inr,
}
use lucinda.EventBus.{Event, Bus, offer_all, publish_event, close, close_all, close_topics, release}

-- The subscribers are the same, and closed channels stay closed.
abbrev Later : Bus → Bus → Type 0
Later b b' =
    (b'.subscribers ≡ b.subscribers)
    × ((c : ℕ) → (b.channels c).is_closed ≡ true → (b'.channels c).is_closed ≡ true)

Later-trans : (b b₁ b' : Bus) → Later b b₁ → Later b₁ b' → Later b b'
Later-trans b b₁ b' (s, k) (t, l) = (t ∙ s, λ c h. l c (k c h))

close-Later : (d : ℕ) (b b' : Bus) → close d b ≡ some b' → Later b b'
unfolding close
close-Later d b b' h = (ground arith, λ c k. ground arith)

close_closes : (c : ℕ) (b b' : Bus) → close c b ≡ some b' → (b'.channels c).is_closed ≡ true
unfolding close
close_closes c b b' h = ground arith

close_all-none : (c : ℕ) (cs : List ℕ) (b : Bus) → close c b ≡ none → close_all (c ∷ cs) b ≡ none
unfolding close_all
close_all-none c cs b e = rw (e, close_all) refl

close_all-some :
    (c : ℕ) (cs : List ℕ) (b b₁ : Bus)
    → close c b ≡ some b₁
    → close_all (c ∷ cs) b ≡ close_all cs b₁
unfolding close_all
close_all-some c cs b b₁ e = rw (e, close_all) refl

close_all_step :
    (c : ℕ) (cs : List ℕ) (b b' : Bus)
    → close_all (c ∷ cs) b ≡ some b'
    → (b₁ : Bus) × (close c b ≡ some b₁) × (close_all cs b₁ ≡ some b')
close_all_step c cs b b' h = elim (Option-cases (close c b)) [
  | inl e ↦ let n = close_all-none c cs b e in cc
  | inr (b₁, e) ↦ (b₁, e, sym (close_all-some c cs b b₁ e) ∙ h)
]

close_all-Later : (cs : List ℕ) (b b' : Bus) → close_all cs b ≡ some b' → Later b b'
unfolding close_all
close_all-Later [] b b' h = (ground arith, λ c k. ground arith)
close_all-Later (c ∷ cs) b b' h =
    let (b₁, e, f) = close_all_step c cs b b' h in
    Later-trans b b₁ b' (close-Later c b b₁ e) (close_all-Later cs b₁ b' f)

close_topics-none :
    (t : Str) (cs : List ℕ) (rest : Map (List ℕ)) (b : Bus)
    → close_all cs b ≡ none
    → close_topics ((t, cs) ∷ rest) b ≡ none
unfolding close_topics
close_topics-none t cs rest b e = rw (e, close_topics) refl

close_topics-some :
    (t : Str) (cs : List ℕ) (rest : Map (List ℕ)) (b b₁ : Bus)
    → close_all cs b ≡ some b₁
    → close_topics ((t, cs) ∷ rest) b ≡ close_topics rest b₁
unfolding close_topics
close_topics-some t cs rest b b₁ e = rw (e, close_topics) refl

close_topics_step :
    (t : Str) (cs : List ℕ) (rest : Map (List ℕ)) (b b' : Bus)
    → close_topics ((t, cs) ∷ rest) b ≡ some b'
    → (b₁ : Bus) × (close_all cs b ≡ some b₁) × (close_topics rest b₁ ≡ some b')
close_topics_step t cs rest b b' h = elim (Option-cases (close_all cs b)) [
  | inl e ↦ let n = close_topics-none t cs rest b e in cc
  | inr (b₁, e) ↦ (b₁, e, sym (close_topics-some t cs rest b b₁ e) ∙ h)
]

close_topics-Later : (l : Map (List ℕ)) (b b' : Bus) → close_topics l b ≡ some b' → Later b b'
unfolding close_topics
close_topics-Later [] b b' h = (ground arith, λ c k. ground arith)
close_topics-Later ((t, cs) ∷ rest) b b' h =
    let (b₁, e, f) = close_topics_step t cs rest b b' h in
    Later-trans b b₁ b' (close_all-Later cs b b₁ e) (close_topics-Later rest b₁ b' f)

close_all_head :
    (c : ℕ) (cs : List ℕ) (b b' : Bus)
    → close_all (c ∷ cs) b ≡ some b'
    → (b'.channels c).is_closed ≡ true
close_all_head c cs b b' h =
    let (b₁, e, f) = close_all_step c cs b b' h in
    (close_all-Later cs b₁ b' f).1 c (close_closes c b b₁ e)

first_closes :
    (topic : Str) (c : ℕ) (cs : List ℕ) (l : Map (List ℕ)) (b b' : Bus)
    → lookup topic l ≡ some (c ∷ cs)
    → close_topics l b ≡ some b'
    → (b'.channels c).is_closed ≡ true
unfolding lookup
first_closes topic c cs [] b b' at h = cc
first_closes topic c cs ((t, ds) ∷ rest) b b' at h =
    let (b₁, e, f) = close_topics_step t ds rest b b' h in
    elim (Bool-cases (str_eq t topic)) [
      | inl hit ↦
          let same : ds ≡ c ∷ cs = ground arith in
          (close_topics-Later rest b₁ b' f).1 c
            (close_all_head c cs b b₁ (subst (λ l. close_all l b ≡ some b₁) same e))
      | inr miss ↦ first_closes topic c cs rest b₁ b' (ground arith) f
    ]

offer_closed :
    (e : Event) (c : ℕ) (cs : List ℕ) (b : Bus)
    → (b.channels c).is_closed ≡ true
    → offer_all e (c ∷ cs) b ≡ none
unfolding offer_all
offer_closed e c cs b h = rw (h, offer_all) refl

-- `Release`, where it does not panic, closes the channels but leaves them subscribed: after it,
-- `Publish` on a topic that has a subscriber panics.
pub publish_event-release :
    (topic : Str) (e : Event) (c : ℕ) (cs : List ℕ) (b b' : Bus)
    → lookup topic b.subscribers ≡ some (c ∷ cs)
    → release b ≡ some b'
    → publish_event topic e b' ≡ none
unfolding release publish_event
publish_event-release topic e c cs b b' at h =
    let (same, kept) = close_topics-Later b.subscribers b b' h in
    let subscribed : lookup_or [] topic b'.subscribers ≡ c ∷ cs =
      ap (λ l. lookup_or [] topic l) same
      ∙ ap (λ o. elim o as (λ _. List ℕ) [ none ↦ [] | some l ↦ l ]) at in
    subst (λ l. offer_all e l b' ≡ none) (sym subscribed)
      (offer_closed e c cs b' (first_closes topic c cs b.subscribers b b' at h))
