-- ===== src/Transport/Removing.antt =====
-- pkg/infrastructure_layer/transport/transporters/host.go: the methods that close channels and take
-- them out of the maps keep the maps sound, and do not panic.
use lucinda.Base.{
  ℕ, ◌+◌, ◌<◌, ◌≤◌, ◌≡◌, refl, ==_iff, Str, lookup, insert, delete, Option, none, some, true, arith,
  total-insert, total-delete, Bool-cases, Option-cases, inl, inr,
}
use lucinda.Transport.Defs.{
  Transport, Error, not_started, not_open, put_channel, close_channel, self_disconnect,
  close_protocol, clean_outbound_channels,
}
use lucinda.Transport.Sound.{Sound, hits, count_in, count_out, close_until_panic_lem}
use lucinda.Transport.Keeping.{held, dropped-Sound}

-- The transport with a channel closed.
abbrev shut : ℕ → Transport → Transport
shut c t = record t {
  channels = put_channel c (record (t.channels c) { is_closed = true }) t.channels;
}

close_held : (c : ℕ) (t : Transport) → Sound t → 0 < held c t → close_channel c t ≡ some (shut c t)
unfolding close_channel
close_held c t s there = ground (arith, s.live c there)

-- A channel is closed, and stands in the maps no more.
shut-Sound :
    (c : ℕ) (t t' : Transport)
    → Sound t
    → t'.channels ≡ (shut c t).channels
    → t'.next ≡ t.next
    → ((d : ℕ) → held d t' + hits d c ≤ held d t)
    → Sound t'
shut-Sound c t t' s channels next counts =
    dropped-Sound t t' s next (λ d. omega (arith, counts d))
      (λ d k. ground (arith, channels, counts d, s.once d, ==_iff c d))

self_disconnect-Sound :
    (proto : Str) (t : Transport)
    → Sound t
    → (t' : Transport) × (self_disconnect proto t ≡ some t') × Sound t'
unfolding self_disconnect
self_disconnect-Sound proto t s = elim (Option-cases (lookup t.node_id t.outs)) [
  | inl absent ↦ (t, rw (absent, self_disconnect) refl, s)
  | inr (protos, found) ↦ elim (Option-cases (lookup proto protos)) [
    | inl absent ↦ (t, rw (found, self_disconnect, absent) refl, s)
    | inr (c, there) ↦
        let t' : Transport = record (shut c t) {
          outs = insert t.node_id (delete proto protos) t.outs;
        } in
        let counts : (d : ℕ) → count_out d t'.outs + hits d c ≤ count_out d t.outs = λ d. ground (
          arith,
          found,
          there,
          total-insert (count_in d) t.node_id (delete proto protos) t.outs,
          total-delete (hits d) proto protos,
        ) in
        (
          t',
          rw
              (
                found,
                self_disconnect,
                there,
                close_held c t s (ground (arith, counts c, ==_iff c c)),
              )
              refl,
          shut-Sound c t t' s refl refl (λ d. omega (arith, counts d)),
        )
  ]
]

pub close_protocol-Sound :
    (proto : Str) (t : Transport)
    → Sound t
    → (t' : Transport) × (err : Option Error) × (close_protocol proto t ≡ some (t', err)) × Sound t'
unfolding close_protocol
close_protocol-Sound proto t s = elim (Bool-cases t.is_started) [
  | inr off ↦ (t, some not_started, ground (arith, off), s)
  | inl on ↦ elim (Option-cases (lookup proto t.ins)) [
    | inl absent ↦ (t, some (not_open proto), ground (arith, on, absent), s)
    | inr (c, there) ↦
        let t₁ : Transport = record (shut c t) { ins = delete proto t.ins } in
        let counts : (d : ℕ) → held d t₁ + hits d c ≤ held d t =
          λ d. ground (arith, there, total-delete (hits d) proto t.ins) in
        let first = close_held c t s (ground (arith, counts c, ==_iff c c)) in
        let (t₂, second, s₂) =
          self_disconnect-Sound proto t₁ (shut-Sound c t t₁ s refl refl counts) in
        (t₂, none, ground (arith, on, there, first, second), s₂)
  ]
]

pub clean_outbound_channels-Sound :
    (node : Str) (t : Transport) → Sound t → Sound (clean_outbound_channels node t)
unfolding clean_outbound_channels
clean_outbound_channels-Sound node t s = elim (Option-cases (lookup node t.outs)) [
  | inl absent ↦ rw (absent, clean_outbound_channels) s
  | inr (protos, found) ↦
      let counts : (d : ℕ)
          → count_out d (delete node t.outs) + count_in d protos ≤ count_out d t.outs =
        λ d. ground (arith, found, total-delete (count_in d) node t.outs) in
      let (f, closed, kept) =
        close_until_panic_lem protos t (λ d. omega (arith, counts d, s.once d))
          (λ d k. s.live d (omega (arith, k, counts d))) in
      rw (found, clean_outbound_channels, closed)
        (dropped-Sound t (record t { channels = f; outs = delete node t.outs }) s refl
          (λ d. omega (arith, counts d)) (λ d k. kept d (omega (arith, k, counts d, s.once d))))
]
