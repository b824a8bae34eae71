-- ===== src/StateManager/Graph.antt =====
-- internal/task_management_layer/task_state_manager/manager.go: the dependency graph of a plan, and
-- the edges of it that are open.
use lucinda.Base.{
  ℕ, ◌+◌, ◌≤◌, ◌≡◌, refl, Str, str_eq, str_eq_iff, Map, lookup, lookup_or, List, [], ◌∷◌, none,
  Bool, true, false, if◌then◌else◌, arith,
}

-- How often a name stands in a list.
unfoldable pub occurrences : Str → List Str → ℕ
occurrences s [] = 0
occurrences s (t ∷ ts) = (if str_eq t s then 1 else 0) + occurrences s ts

-- The edges into `s` whose source is not closed.
unfoldable pub open_edges : (Str → Bool) → Map (List Str) → Str → ℕ
open_edges closed [] s = 0
open_edges closed ((p, ss) ∷ rest) s =
    (if closed p then 0 else occurrences s ss) + open_edges closed rest s

-- No key stands twice, as in every Go map.
abbrev pub Distinct {ℓ} : {V : Type ℓ} → Map V → Type ℓ
Distinct [] = Unit
Distinct ((k, v) ∷ m) = (lookup k m ≡ none) × Distinct m

-- Without the edges of `id`, where it has none.
open_edges_absent :
    (d d' : Str → Bool) (id s : Str) (g : Map (List Str))
    → ((p : Str) → d' p ≡ (if str_eq p id then true else d p))
    → lookup id g ≡ none
    → open_edges d' g s ≡ open_edges d g s
unfolding open_edges lookup
open_edges_absent d d' id s [] h e = refl
open_edges_absent d d' id s ((p, ss) ∷ rest) h e =
    ground (arith, h p, open_edges_absent d d' id s rest h)

-- To close `id` takes its own edges away.
pub open_edges_close :
    (d d' : Str → Bool) (id s : Str) (g : Map (List Str))
    → ((p : Str) → d' p ≡ (if str_eq p id then true else d p))
    → d id ≡ false
    → Distinct g
    → open_edges d' g s + occurrences s (lookup_or [] id g) ≡ open_edges d g s
unfolding open_edges lookup occurrences
open_edges_close d d' id s [] h e u = refl
open_edges_close d d' id s ((p, ss) ∷ rest) h e u = ground (
  arith,
  h p,
  str_eq_iff p id,
  open_edges_absent d d' id s rest h,
  open_edges_close d d' id s rest h e,
)

-- The number depends on no more than which sources are closed.
pub open_edges_ext :
    (d d' : Str → Bool) (s : Str) (g : Map (List Str))
    → ((p : Str) → d' p ≡ d p)
    → open_edges d' g s ≡ open_edges d g s
unfolding open_edges
open_edges_ext d d' s [] h = refl
open_edges_ext d d' s ((p, ss) ∷ rest) h = ground (arith, h p, open_edges_ext d d' s rest h)

-- No more edges are open than there are.
pub open_edges-le :
    (d : Str → Bool) (s : Str) (g : Map (List Str)) → open_edges d g s ≤ open_edges (λ _. false) g s
unfolding open_edges
open_edges-le d s [] = omega arith
open_edges-le d s ((p, ss) ∷ rest) = ground (arith, open_edges-le d s rest)
