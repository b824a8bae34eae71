-- ===== src/Capability/Meets.antt =====
-- api/v1/domain/capability/cv.go: the score of `Match` against the requirements of a task.
use mathlib.Core.List.{Memᴰ}
use lucinda.Base.{
  ◌<◌, ◌/◌, ◌≡◌, refl, sym, ◌⊎◌, inl, inr, Str, str_eq, str_eq_iff, pos, ltb_ℤ, ◌≤ℤ◌, int_min_abs,
  sub64, sub64_pos, List, [], ◌∷◌, all, All, true, Bool-cases, arith, ℕ,
}
use lucinda.Task.{TaskSpec}
use lucinda.Messages.{CapabilityCv}
use lucinda.Capability.{contains, any_overlap, total_free, gib, match}

-- The requirements in words of their own: enough free VRAM, and, where the profile lists any, the
-- model, every tool, and one of the labels.
pub record Meets (cv : CapabilityCv) (spec : TaskSpec) : Type 0 where
  pub vram : (spec.min_vram ≤ℤ pos 0) ⊎ (spec.min_vram ≤ℤ total_free (pos 0) cv.hardware.gpu)
  pub model : (spec.model ≡ []) ⊎ ((cv.models ≡ []) ⊎ Memᴰ spec.model cv.models)
  pub tools : (cv.tools ≡ []) ⊎ All (λ t. Memᴰ t cv.tools) spec.tools
  pub labels :
      (cv.labels ≡ []) ⊎ ((spec.labels ≡ []) ⊎ ((l : Str) × Memᴰ l cv.labels × Memᴰ l spec.labels))

mem_of_contains : (l : List Str) (s : Str) → contains l s ≡ true → Memᴰ s l
mem_of_contains [] s h = absurd (ground arith)
mem_of_contains (x ∷ xs) s h = elim (Bool-cases (str_eq x s)) [
  | inl e ↦ Memᴰ.head (sym ((str_eq_iff x s).0 e))
  | inr e ↦ Memᴰ.tail (mem_of_contains xs s (ground arith))
]

contains_of_mem : (l : List Str) (s : Str) → Memᴰ s l → contains l s ≡ true
contains_of_mem [] s m = elim m [ ]
contains_of_mem (x ∷ xs) s (Memᴰ.head e) = ground (arith, str_eq_iff x s)
contains_of_mem (x ∷ xs) s (Memᴰ.tail m) = ground (arith, contains_of_mem xs s m)

All-of_all : (l ts : List Str) → all (contains l) ts ≡ true → All (λ t. Memᴰ t l) ts
All-of_all l [] h = tt
All-of_all l (t ∷ ts) h = (mem_of_contains l t (ground arith), All-of_all l ts (ground arith))

all_of_All : (l ts : List Str) → All (λ t. Memᴰ t l) ts → all (contains l) ts ≡ true
all_of_All l [] h = refl
all_of_All l (t ∷ ts) h = ground (arith, contains_of_mem l t h.0, all_of_All l ts h.1)

common_of_overlap : (l ts : List Str) → any_overlap l ts ≡ true → (t : Str) × Memᴰ t l × Memᴰ t ts
common_of_overlap l [] h = absurd (ground arith)
common_of_overlap l (t ∷ ts) h = elim (Bool-cases (contains l t)) [
  | inl e ↦ (t, mem_of_contains l t e, Memᴰ.head refl)
  | inr e ↦ let (u, m, n) = common_of_overlap l ts (ground arith) in (u, m, Memᴰ.tail n)
]

overlap_of_common : (l ts : List Str) (t : Str) → Memᴰ t l → Memᴰ t ts → any_overlap l ts ≡ true
overlap_of_common l [] t m n = elim n [ ]
overlap_of_common l (u ∷ ts) t m (Memᴰ.head e) = ground (arith, contains_of_mem l t m, e)
overlap_of_common l (u ∷ ts) t m (Memᴰ.tail n) = ground (arith, overlap_of_common l ts t m n)

vram_passes :
    (cv : CapabilityCv) (spec : TaskSpec)
    → pos 0 ≤ℤ match cv spec
    → (spec.min_vram ≤ℤ pos 0) ⊎ (spec.min_vram ≤ℤ total_free (pos 0) cv.hardware.gpu)
unfolding match
vram_passes cv spec h = ground arith

model_passes :
    (cv : CapabilityCv) (spec : TaskSpec)
    → pos 0 ≤ℤ match cv spec
    → (spec.model ≡ []) ⊎ ((cv.models ≡ []) ⊎ (contains cv.models spec.model ≡ true))
unfolding match
model_passes cv spec h = ground arith

tools_pass :
    (cv : CapabilityCv) (spec : TaskSpec)
    → pos 0 ≤ℤ match cv spec
    → (cv.tools ≡ []) ⊎ (all (contains cv.tools) spec.tools ≡ true)
unfolding match
tools_pass cv spec h = ground arith

labels_pass :
    (cv : CapabilityCv) (spec : TaskSpec)
    → pos 0 ≤ℤ match cv spec
    → (cv.labels ≡ []) ⊎ ((spec.labels ≡ []) ⊎ (any_overlap cv.labels spec.labels ≡ true))
unfolding match
labels_pass cv spec h = ground arith

-- A profile that gets a score of 0 or more meets the requirements.
pub match-Meets : (cv : CapabilityCv) (spec : TaskSpec) → pos 0 ≤ℤ match cv spec → Meets cv spec
match-Meets cv spec h = record {
  vram = vram_passes cv spec h;
  model = elim (model_passes cv spec h) [
    | inl e ↦ inl e
    | inr (inl e) ↦ inr (inl e)
    | inr (inr c) ↦ inr (inr (mem_of_contains cv.models spec.model c))
  ];
  tools = elim (tools_pass cv spec h) [
    | inl e ↦ inl e
    | inr c ↦ inr (All-of_all cv.tools spec.tools c)
  ];
  labels = elim (labels_pass cv spec h) [
    | inl e ↦ inl e
    | inr (inl e) ↦ inr (inl e)
    | inr (inr c) ↦ inr (inr (common_of_overlap cv.labels spec.labels c))
  ];
}

-- The boolean tests that the requirements amount to.
tests_pass :
    (cv : CapabilityCv) (spec : TaskSpec)
    → (spec.min_vram ≤ℤ pos 0) ⊎ (spec.min_vram ≤ℤ total_free (pos 0) cv.hardware.gpu)
    → (spec.model ≡ []) ⊎ ((cv.models ≡ []) ⊎ (contains cv.models spec.model ≡ true))
    → (cv.tools ≡ []) ⊎ (all (contains cv.tools) spec.tools ≡ true)
    → (cv.labels ≡ []) ⊎ ((spec.labels ≡ []) ⊎ (any_overlap cv.labels spec.labels ≡ true))
    → match cv spec ≡ sub64 (gib cv.hardware.memory.free_bytes) spec.priority
unfolding match
tests_pass cv spec v m t l = ground arith

-- A profile that meets the requirements scores its free memory in GiB, less the task's priority.
pub Meets-match :
    (cv : CapabilityCv) (spec : TaskSpec)
    → Meets cv spec
    → match cv spec ≡ sub64 (gib cv.hardware.memory.free_bytes) spec.priority
Meets-match cv spec w =
    tests_pass cv spec w.vram
      (elim w.model [
        | inl e ↦ inl e
        | inr (inl e) ↦ inr (inl e)
        | inr (inr m) ↦ inr (inr (contains_of_mem cv.models spec.model m))
      ])
      (elim w.tools [ inl e ↦ inl e | inr a ↦ inr (all_of_All cv.tools spec.tools a) ])
      (elim w.labels [
        | inl e ↦ inl e
        | inr (inl e) ↦ inr (inl e)
        | inr (inr (t, m, n)) ↦ inr (inr (overlap_of_common cv.labels spec.labels t m n))
      ])

-- A profile that meets the requirements is scored below 0, as if it did not, where the task's
-- priority is greater than the free memory in GiB, neither being negative or beyond 64 bits.
pub priority_disqualifies :
    (cv : CapabilityCv) (spec : TaskSpec) (f p : ℕ)
    → Meets cv spec
    → cv.hardware.memory.free_bytes ≡ pos f
    → spec.priority ≡ pos p
    → f < int_min_abs
    → p < int_min_abs
    → f / 1073741824 < p
    → ltb_ℤ (match cv spec) (pos 0) ≡ true
priority_disqualifies cv spec f p w ef ep lf lp lt =
    rw (Meets-match cv spec w) (rw (ef, ep) (ground (arith, sub64_pos (f / 1073741824) p)))
