-- ===== src/Planner/Json.antt =====
-- internal/task_workflow_layer/task_planner/planner.go: `extractJSON` on a text that wraps an
-- object.
use mathlib.Core.List.{append_assoc}
use lucinda.Base.{
  ap, ◌∙◌, sym, ℕ, suc, ◌+◌, ◌-◌, ◌≡◌, refl, Str, [], ◌∷◌, ◌++◌, Option, none, some, Bool, false,
  ◌==◌, ◌&&◌, if◌then◌else◌, any, arith,
}
use lucinda.Planner.Defs.{from_brace, next_depth, scan, cons_some, extract_json}

-- No "{" in the text.
abbrev pub has_brace : Str → Bool
has_brace s = any (λ c. c == b'{') s

from_brace-append : (s t : Str) → has_brace s ≡ false → from_brace (s ++ t) ≡ from_brace t
unfolding from_brace
from_brace-append [] t h = refl
from_brace-append (c ∷ s) t h = ground (arith, from_brace-append s t)

-- A text in which the braces match, as that between the outer braces of an object whose strings hold
-- no brace, or matching ones.
pub data Body : Str → Type 0 where
  nothing : Body []
  other : {c : ℕ} {s : Str} → (c == b'{') ≡ false → (c == b'}') ≡ false → Body s → Body (c ∷ s)
  group : {s t : Str} → Body s → Body t → Body (b'{' ∷ (s ++ (b'}' ∷ t)))

abbrev prepend : Str → Option Str → Option Str
prepend s none = none
prepend s (some t) = some (s ++ t)

prepend-cons : (c : ℕ) (s : Str) (o : Option Str) → prepend (c ∷ s) o ≡ cons_some c (prepend s o)
prepend-cons c s none = refl
prepend-cons c s (some t) = refl

prepend-append : (s t : Str) (o : Option Str) → prepend (s ++ t) o ≡ prepend s (prepend t o)
prepend-append s t none = refl
prepend-append s t (some u) = ap some (append_assoc s t u)

scan_cons :
    (c d : ℕ) (s : Str)
    → scan d (c ∷ s) ≡ (
        if c == b'}' && next_depth c d == 0
        then some (c ∷ [])
        else cons_some c (scan (next_depth c d) s))
unfolding scan
scan_cons c d s = refl

scan_other :
    (c d : ℕ) (s : Str)
    → (c == b'{') ≡ false
    → (c == b'}') ≡ false
    → scan d (c ∷ s) ≡ cons_some c (scan d s)
unfolding scan
scan_other c d s a b = rw (b, a) refl

scan_open : (d : ℕ) (s : Str) → scan (suc d) (b'{' ∷ s) ≡ cons_some b'{' (scan (suc (suc d)) s)
unfolding scan
scan_open d s = let deeper : suc d + 1 ≡ suc (suc d) = omega arith in rw deeper refl

scan_close : (d : ℕ) (s : Str) → scan (suc (suc d)) (b'}' ∷ s) ≡ cons_some b'}' (scan (suc d) s)
unfolding scan
scan_close d s =
    let back : suc (suc d) - 1 ≡ suc d = omega arith in
    let nonzero : (suc d == 0) ≡ false = ground arith in rw back (rw nonzero refl)

prepend-nil : (o : Option Str) → o ≡ prepend [] o
prepend-nil none = refl
prepend-nil (some t) = refl

-- Below the surface the scan goes through such a text and on.
scan-Body :
    {s : Str} (d : ℕ) (t : Str) → Body s → scan (suc d) (s ++ t) ≡ prepend s (scan (suc d) t)
scan-Body d t nothing = prepend-nil (scan (suc d) t)
scan-Body d t (other {c} {s} a b body) =
    scan_other c (suc d) (s ++ t) a b
    ∙ ap (cons_some c) (scan-Body d t body)
    ∙ sym (prepend-cons c s (scan (suc d) t))
scan-Body d t (group {s} {t = u} inner outer) =
    let rest = scan (suc d) t in
    let ended : scan (suc (suc d)) (b'}' ∷ (u ++ t)) ≡ prepend (b'}' ∷ u) rest =
      scan_close d (u ++ t)
      ∙ ap (cons_some b'}') (scan-Body d t outer)
      ∙ sym (prepend-cons b'}' u rest) in
    scan_open d ((s ++ (b'}' ∷ u)) ++ t)
    ∙ ap (cons_some b'{') (
        ap (scan (suc (suc d))) (append_assoc s (b'}' ∷ u) t)
        ∙ scan-Body (suc d) (b'}' ∷ (u ++ t)) inner
        ∙ ap (prepend s) ended
        ∙ sym (prepend-append s (b'}' ∷ u) rest))
    ∙ sym (prepend-cons b'{' (s ++ (b'}' ∷ u)) rest)

-- An object with matching braces is found behind any text without a "{" and in front of any text at
-- all.
pub extract_json_embedded :
    (before after : Str) {s : Str}
    → has_brace before ≡ false
    → Body s
    → extract_json (before ++ (b'{' ∷ (s ++ (b'}' ∷ after)))) ≡ b'{' ∷ (s ++ (b'}' ∷ []))
unfolding extract_json
extract_json_embedded before after {s} h body =
    let text = b'{' ∷ (s ++ (b'}' ∷ after)) in
    let found : from_brace (before ++ text) ≡ some text = from_brace-append before text h ∙ refl in
    let scanned : scan 0 text ≡ some (b'{' ∷ (s ++ (b'}' ∷ []))) =
      scan_cons b'{' 0 (s ++ (b'}' ∷ after))
      ∙ ap (cons_some b'{') (scan-Body 0 (b'}' ∷ after) body) in
    rw (found, scanned, extract_json) refl
