-- ===== src/Transport/Keeping.antt =====
-- pkg/infrastructure_layer/transport/transporters/host.go: the methods that open, close and remove
-- channels keep the maps sound, and none of them panics.
use lucinda.Base.{
  ℕ, suc, ◌+◌, ◌<◌, ◌≤◌, ◌≡◌, refl, ==_iff, Str, lookup, lookup_or, insert, delete, [], ◌∷◌, Option,
  none, some, false, arith, total-insert, total-delete, Bool-cases, Option-cases, inl, inr, sym,
  subst,
}
use lucinda.Transport.Defs.{
  Transport, Error, stream_handler, put_channel, make_channel, out_channel, set_out,
  self_out_connect, open_protocol, get_or_create_out_channel, remove_out_channel,
}
use lucinda.Transport.Sound.{Sound, hits, count_in, count_out}

abbrev pub held : ℕ → Transport → ℕ
held c t = count_in c t.ins + count_out c t.outs

-- The state behind a new channel that is entered in one of the maps.
grown-Sound :
    (n : ℕ) (t t' : Transport)
    → Sound t
    → t'.channels
      ≡ put_channel t.next (record { buffer = []; capacity = n; is_closed = false }) t.channels
    → t'.next ≡ suc t.next
    → ((c : ℕ) → held c t' ≡ held c t + hits c t.next)
    → Sound t'
grown-Sound n t t' s channels next counts = record {
  once = λ c. ground (arith, s.once c, s.known c, counts c, ==_iff t.next c);
  live = λ c k. ground (arith, s.live c, counts c, channels, ==_iff t.next c);
  known = λ c k. ground (arith, s.known c, counts c, next, ==_iff t.next c);
}

-- The state behind the loss of some channels.
pub dropped-Sound :
    (t t' : Transport)
    → Sound t
    → t'.next ≡ t.next
    → ((c : ℕ) → held c t' ≤ held c t)
    → ((c : ℕ) → 0 < held c t' → t'.channels c ≡ t.channels c)
    → Sound t'
dropped-Sound t t' s next counts same = record {
  once = λ c. omega (arith, s.once c, counts c);
  live = λ c k. ground (arith, s.live c, counts c, same c);
  known = λ c k. ground (arith, s.known c, counts c, next);
}

count-set_out :
    (c n : ℕ) (node proto : Str) (t : Transport)
    → out_channel node proto t ≡ none
    → count_out c (set_out node proto n t).outs ≡ count_out c t.outs + hits c n
unfolding lookup
count-set_out c n node proto t absent =
    let protos = lookup_or [] node t.outs in
    ground (
      arith,
      absent,
      total-insert (count_in c) node (insert proto n protos) t.outs,
      total-insert (hits c) proto n protos,
    )

count-out_channel :
    (c : ℕ) (node proto : Str) (t : Transport)
    → out_channel node proto t ≡ some c
    → 1 ≤ count_out c t.outs
unfolding lookup
count-out_channel c node proto t there = elim (Option-cases (lookup node t.outs)) [
  | inl absent ↦ absurd (ground (arith, there, absent))
  | inr (protos, found) ↦ ground (
    arith,
    there,
    found,
    total-delete (count_in c) node t.outs,
    total-delete (hits c) proto protos,
    ==_iff c c,
  )
]

self_out_connect-Sound :
    (proto : Str) (c : ℕ) (t : Transport) → Sound t → Sound (self_out_connect proto c t)
unfolding self_out_connect make_channel
self_out_connect-Sound proto c t s = elim (Option-cases (out_channel t.node_id proto t)) [
  | inl absent ↦
      rw (absent, self_out_connect)
        (grown-Sound t.outs_length t _ s refl refl
          (λ d. ground (arith, count-set_out d t.next t.node_id proto t absent)))
  | inr (d, there) ↦ rw (there, self_out_connect) s
]

pub open_protocol-Sound : (proto : Str) (t : Transport) → Sound t → Sound (open_protocol proto t).0
unfolding open_protocol make_channel
open_protocol-Sound proto t s = elim (Bool-cases t.is_started) [
  | inr off ↦ ground (arith, off, s)
  | inl on ↦ elim (Option-cases (lookup proto t.ins)) [
    | inr (c, there) ↦ ground (arith, on, there, s)
    | inl absent ↦
        let t₂ : Transport = record (make_channel t.ins_length t) {
          ins = insert proto t.next t.ins;
        } in
        let s₂ : Sound t₂ =
          grown-Sound t.ins_length t t₂ s refl refl
            (λ c. ground (arith, absent, total-insert (hits c) proto t.next t.ins)) in
        let s₃ = self_out_connect-Sound proto t.next t₂ s₂ in
        let t₃ : Transport = record (self_out_connect proto t.next t₂) {
          workers = stream_handler proto t.next ∷ (self_out_connect proto t.next t₂).workers;
        } in
        let same : open_protocol proto t ≡ (t₃, none) = ground (arith, on, absent) in
        subst (λ (r : Transport × Option Error). Sound r.0) (sym same)
          (record { once = s₃.once; live = s₃.live; known = s₃.known })
  ]
]

pub remove_out_channel-Sound :
    (to proto : Str) (t : Transport) → Sound t → Sound (remove_out_channel to proto t)
unfolding remove_out_channel
remove_out_channel-Sound to proto t s = elim (Option-cases (lookup to t.outs)) [
  | inl absent ↦ rw (absent, remove_out_channel) s
  | inr (protos, there) ↦
      rw (there, remove_out_channel)
        (dropped-Sound t _ s refl
          (λ c. ground (
            arith,
            there,
            total-delete (count_in c) to t.outs,
            total-insert (count_in c) to (delete proto protos) t.outs,
            total-delete (hits c) proto protos,
          ))
          (λ c k. refl))
]

pub get_or_create_out_channel-Sound :
    (to proto : Str) (t : Transport)
    → Sound t
    → let (t', c) = get_or_create_out_channel to proto t in
      Sound t' × ((t'.channels c).is_closed ≡ false)
unfolding get_or_create_out_channel make_channel
get_or_create_out_channel-Sound to proto t s = elim (Option-cases (out_channel to proto t)) [
  | inl absent ↦
      rw (absent, get_or_create_out_channel)
        (
          grown-Sound t.outs_length t _ s refl refl
              (λ d. ground (arith, count-set_out d t.next to proto t absent)),
          ground (arith, ==_iff t.next t.next),
        )
  | inr (c, there) ↦
      rw (there, get_or_create_out_channel)
        (s, s.live c (omega (arith, count-out_channel c to proto t there)))
]
