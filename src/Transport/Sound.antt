-- ===== src/Transport/Sound.antt =====
-- pkg/infrastructure_layer/transport/transporters/host.go: the channels in the two maps, which are open
-- and stand there once, under every method.
use lucinda.Base.{
  ℕ, ◌+◌, ◌<◌, ◌≤◌, ◌≡◌, refl, ◌==◌, ==_iff, Map, [], ◌∷◌, Option, none, some, true, false, arith,
  total, if◌then◌else◌, Bool-cases, inl, inr,
}
use lucinda.Transport.Defs.{
  Error, not_started, stop, Transport, Channel, put_channel, close_channel, close_channels,
  close_peers, close_until_panic,
}

abbrev pub hits : ℕ → ℕ → ℕ
hits c d = if d == c then 1 else 0

-- How often a channel stands in a map, and in a map of maps.
abbrev pub count_in : ℕ → Map ℕ → ℕ
count_in c m = total (hits c) m

abbrev pub count_out : ℕ → Map (Map ℕ) → ℕ
count_out c l = total (count_in c) l

abbrev Open : ℕ → Transport → Type 0
Open c t = (t.channels c).is_closed ≡ false

-- The transport with its channels changed so that those outside of a map stay as they are.
abbrev Closed : (ℕ → ℕ) → Transport → Option Transport → Type 0
Closed count t o =
    (f : ℕ → Channel) × (o ≡ some (record t { channels = f }))
    × ((d : ℕ) → count d ≡ 0 → f d ≡ t.channels d)

close_channels_lem :
    (m : Map ℕ) (t : Transport)
    → ((c : ℕ) → count_in c m ≤ 1)
    → ((c : ℕ) → 0 < count_in c m → Open c t)
    → Closed (λ d. count_in d m) t (close_channels m t)
unfolding close_channels
close_channels_lem [] t once live = (t.channels, refl, (λ d n. refl))
close_channels_lem ((p, c) ∷ rest) t once live =
    let t₁ : Transport = record t {
      channels = put_channel c (record (t.channels c) { is_closed = true }) t.channels;
    } in
    let first : close_channel c t ≡ some t₁ =
      unfold close_channel in ground (arith, live c, ==_iff c c) in
    let (f, done, kept) =
      close_channels_lem rest t₁ (λ d. omega (arith, once d))
        (λ d n. ground (arith, once d, live d, ==_iff c d)) in
    (f, rw (first, close_channels) done, (λ d n. ground (arith, kept d, ==_iff c d)))

close_peers_lem :
    (l : Map (Map ℕ)) (t : Transport)
    → ((c : ℕ) → count_out c l ≤ 1)
    → ((c : ℕ) → 0 < count_out c l → Open c t)
    → Closed (λ d. count_out d l) t (close_peers l t)
unfolding close_peers
close_peers_lem [] t once live = (t.channels, refl, (λ d n. refl))
close_peers_lem ((n, m) ∷ rest) t once live =
    let (f, first, others) =
      close_channels_lem m t (λ d. omega (arith, once d)) (λ d n. live d (omega arith)) in
    let t₁ : Transport = record t { channels = f } in
    let (g, done, kept) =
      close_peers_lem rest t₁ (λ d. omega (arith, once d))
        (λ d n. ground (arith, once d, live d, others d)) in
    (g, rw (first, close_peers) done, (λ d n. ground (arith, kept d, others d)))

pub close_until_panic_lem :
    (m : Map ℕ) (t : Transport)
    → ((c : ℕ) → count_in c m ≤ 1)
    → ((c : ℕ) → 0 < count_in c m → Open c t)
    → (f : ℕ → Channel) × (close_until_panic m t ≡ (record t { channels = f }, false))
      × ((d : ℕ) → count_in d m ≡ 0 → f d ≡ t.channels d)
unfolding close_until_panic
close_until_panic_lem [] t once live = (t.channels, refl, (λ d n. refl))
close_until_panic_lem ((p, c) ∷ rest) t once live =
    let t₁ : Transport = record t {
      channels = put_channel c (record (t.channels c) { is_closed = true }) t.channels;
    } in
    let first : close_channel c t ≡ some t₁ =
      unfold close_channel in ground (arith, live c, ==_iff c c) in
    let (f, done, kept) =
      close_until_panic_lem rest t₁ (λ d. omega (arith, once d))
        (λ d n. ground (arith, once d, live d, ==_iff c d)) in
    (f, rw (first, close_until_panic) done, (λ d n. ground (arith, kept d, ==_iff c d)))

-- A channel stands once in the maps of a transport, and those that stand there are open, and are
-- older than the next one.
pub record Sound (t : Transport) : Type 0 where
  pub once : (c : ℕ) → count_in c t.ins + count_out c t.outs ≤ 1
  pub live : (c : ℕ) → 0 < count_in c t.ins + count_out c t.outs → Open c t
  pub known : (c : ℕ) → 0 < count_in c t.ins + count_out c t.outs → c < t.next

abbrev empty_maps : Transport → Transport
empty_maps t = record t { ins = []; outs = []; mdns = false; is_started = false }

pub stop-Sound :
    (t : Transport)
    → Sound t
    → (t' : Transport) × (err : Option Error) × (stop t ≡ some (t', err))
      × Sound t'
      × (t'.is_started ≡ false)
unfolding stop
stop-Sound t s = elim (Bool-cases t.is_started) [
  | inl on ↦
      let (f, first, others) =
        close_channels_lem t.ins t (λ c. omega (arith, s.once c)) (λ c n. s.live c (omega arith)) in
      let t₁ : Transport = record t { channels = f } in
      let (g, second, rest) =
        close_peers_lem t.outs t₁ (λ c. omega (arith, s.once c))
          (λ c n. ground (arith, s.once c, s.live c, others c)) in
      (
        empty_maps (record t { channels = g }),
        none,
        ground (arith, on, first, second),
        record {
          once = λ c. omega arith;
          live = λ c n. absurd (omega (arith, n));
          known = λ c n. omega (arith, n);
        },
        refl,
      )
  | inr off ↦ (t, some not_started, ground (arith, off), s, off)
]
