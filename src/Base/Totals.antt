-- ===== src/Base/Totals.antt =====
-- The sum of a measure over the values of a map, and what the operations on maps do to it.
use Prim.Native.Nat.{ℕ, ◌+◌, ◌≤◌}
use mathlib.Core.Path.{◌≡◌}
use mathlib.Core.List.{[], ◌∷◌}
use mathlib.Core.Option.{none, some}
use native.Mathlib.Omega.{arith}
use lucinda.Base.Strs.{Str}
use lucinda.Base.Maps.{Map, lookup, insert, delete}

module _ {ℓ} {V : Type ℓ} (measure : V → ℕ) where
  abbrev pub total : Map V → ℕ
  total [] = 0
  total ((k, v) ∷ m) = measure v + total m

  -- The new value takes the place of the old one, if there is one.
  pub total-insert :
      (k : Str) (v : V) (m : Map V)
      → total (insert k v m) + (elim (lookup k m) [ none ↦ 0 | some w ↦ measure w ])
        ≡ total m + measure v
  unfolding lookup insert
  total-insert k v [] = ground arith
  total-insert k v ((j, w) ∷ m) = ground (arith, total-insert k v m)

  pub total-delete :
      (k : Str) (m : Map V)
      → total (delete k m) + (elim (lookup k m) [ none ↦ 0 | some w ↦ measure w ]) ≤ total m
  unfolding lookup delete
  total-delete k [] = ground arith
  total-delete k ((j, w) ∷ m) = ground (arith, total-delete k m)
