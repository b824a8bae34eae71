-- ===== src/EventBus/Unsubscribe.antt =====
-- pkg/infrastructure_layer/eventbus/eventbus.go: `UnSubscribe`, whose loop ranges over an array that it
-- shifts, against the removal of one channel.
use lucinda.Base.{
  ℕ, zero, suc, ◌+◌, ◌≤◌, ◌≡◌, refl, sym, ◌∙◌, ap, Str, lookup, insert, List, [], ◌∷◌, ◌++◌, some,
  Bool, true, false, not, length, ◌==◌, ◌||◌, if◌then◌else◌, keep, arith, Bool-cases, inl, inr,
}
use lucinda.EventBus.{Bus, last_of, close, put_channel, unsubscribe_loop, unsubscribe}

-- How often a channel stands in a list.
abbrev pub times : ℕ → List ℕ → ℕ
times c [] = 0
times c (d ∷ rest) = (if d == c then 1 else 0) + times c rest

abbrev pub has : ℕ → List ℕ → Bool
has c [] = false
has c (d ∷ rest) = d == c || has c rest

abbrev pub without : ℕ → List ℕ → List ℕ
without c l = keep (λ d. not (d == c)) l

-- The bus with a channel closed.
abbrev pub shut : ℕ → Bus → Bus
shut c b = record b {
  channels = put_channel c (record (b.channels c) { is_closed = true }) b.channels;
}

append_nil : (l : List ℕ) → l ++ [] ≡ l
append_nil [] = refl
append_nil (x ∷ l) = ap (λ r. x ∷ r) (append_nil l)

append_step : (x : ℕ) (l m : List ℕ) → (l ++ x ∷ []) ++ m ≡ l ++ x ∷ m
append_step x [] m = refl
append_step x (y ∷ l) m = ap (λ r. y ∷ r) (append_step x l m)

times-append : (c : ℕ) (l m : List ℕ) → times c (l ++ m) ≡ times c l + times c m
times-append c [] m = omega arith
times-append c (d ∷ l) m = omega (arith, times-append c l m)

times-last_of : (c e : ℕ) (l : List ℕ) → times c (e ∷ l) ≡ 0 → times c (last_of e l ∷ []) ≡ 0
times-last_of c e [] h = h
times-last_of c e (f ∷ l) h = times-last_of c f l (omega (arith, h))

without_none : (c : ℕ) (l : List ℕ) → times c l ≡ 0 → without c l ≡ l
without_none c [] h = refl
without_none c (d ∷ l) h = ground (arith, h, without_none c l)

loop_misses :
    (n c : ℕ) (before here left : List ℕ) (b : Bus)
    → times c here ≡ 0
    → unsubscribe_loop n c before here left b ≡ some (left, b)
unfolding unsubscribe_loop
loop_misses zero c before here left b h = refl
loop_misses (suc n) c before [] left b h = refl
loop_misses (suc n) c before (d ∷ []) left b h =
    ground (arith, h, loop_misses n c (before ++ d ∷ []) [] left b)
loop_misses (suc n) c before (d ∷ e ∷ rest) left b h =
    ground (arith, h, loop_misses n c (before ++ d ∷ []) (e ∷ rest) left b)

close_open : (c : ℕ) (b : Bus) → (b.channels c).is_closed ≡ false → close c b ≡ some (shut c b)
unfolding close
close_open c b live = ground (arith, live)

loop_lem :
    (c : ℕ) (before here left : List ℕ) (b : Bus)
    → times c here ≤ 1
    → (b.channels c).is_closed ≡ false
    → left ≡ before ++ here
    → unsubscribe_loop (length here) c before here left b
      ≡ some (before ++ without c here, if has c here then shut c b else b)
unfolding unsubscribe_loop
loop_lem c before [] left b once live same = ap (λ l. some (l, b)) same
loop_lem c before (d ∷ []) left b once live same = elim (Bool-cases (d == c)) [
  | inl hit ↦
      rw (hit, unsubscribe_loop, close_open c b live)
        (ap (λ l. some (l, shut c b)) (sym (append_nil before)))
  | inr miss ↦ rw (miss, unsubscribe_loop) (ap (λ l. some (l, b)) same)
]
loop_lem c before (d ∷ e ∷ rest) left b once live same = elim (Bool-cases (d == c)) [
  | inl hit ↦
      let gone : times c (e ∷ rest) ≡ 0 = ground (arith, hit, once) in
      let shifted : times c (rest ++ last_of e rest ∷ []) ≡ 0 =
        omega
          (arith, times-append c rest (last_of e rest ∷ []), times-last_of c e rest gone, gone) in
      let over =
        loop_misses (suc (length rest)) c (before ++ e ∷ []) (rest ++ last_of e rest ∷ [])
          (before ++ e ∷ rest) (shut c b) shifted in
      rw (hit, unsubscribe_loop, close_open c b live)
        (over ∙ ap (λ l. some (before ++ l, shut c b)) (sym (without_none c (e ∷ rest) gone)))
  | inr miss ↦
      let more =
        loop_lem c (before ++ d ∷ []) (e ∷ rest) left b (ground (arith, miss, once)) live
          (same ∙ sym (append_step d before (e ∷ rest))) in
      rw (miss, unsubscribe_loop)
        (more
          ∙ ap (λ l. some (l, if has c (e ∷ rest) then shut c b else b))
              (append_step d before (without c (e ∷ rest))))
]

-- Where no channel stands twice under the topic, and the channel is open, `UnSubscribe` of a known topic
-- takes exactly this channel out of the list of the topic, which keeps the order of the others, and closes
-- this channel if it was in the list, and no other one.
pub unsubscribe-without :
    (topic : Str) (c : ℕ) (l : List ℕ) (b : Bus)
    → lookup topic b.subscribers ≡ some l
    → times c l ≤ 1
    → (b.channels c).is_closed ≡ false
    → let b' = if has c l then shut c b else b in
      unsubscribe topic c b
      ≡ some (record b' { subscribers = insert topic (without c l) b.subscribers })
unfolding unsubscribe
unsubscribe-without topic c l b there once live =
    rw (there, unsubscribe, loop_lem c [] l l b once live refl)
      (elim (Bool-cases (has c l)) [ inl h ↦ rw h refl | inr h ↦ rw h refl ])
