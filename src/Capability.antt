-- ===== src/Capability.antt =====
-- api/v1/domain/capability/cv.go: the score of a capability profile against a task's requirements.
pub mod Meets
use lucinda.Base.{
  ◌/◌, Str, str_eq, ℤ, pos, negsuc, neg_part, sub_ℕ, add64, sub64, ltb_ℤ, List, [], ◌∷◌, any, all,
  Bool, true, false, not, ◌&&◌, if◌then◌else◌,
}
use lucinda.Task.{TaskSpec}
use lucinda.Hardware.{GpuSnapshot}
use lucinda.Messages.{CapabilityCv}

-- The loops of `contains` and `anyOverlap`.
abbrev pub contains : List Str → Str → Bool
contains slice item = any (λ s. str_eq s item) slice

abbrev pub any_overlap : List Str → List Str → Bool
any_overlap have need = any (contains have) need

abbrev pub is_empty {ℓ} : {A : Type ℓ} → List A → Bool
is_empty [] = true
is_empty (x ∷ xs) = false

-- The sum of the loop over the GPUs, from its start value.
unfoldable pub total_free : ℤ → List GpuSnapshot → ℤ
total_free acc [] = acc
total_free acc (g ∷ gs) = total_free (add64 acc g.free_vram) gs

-- Go's division by 1 GiB, which rounds towards zero.
abbrev pub gib : ℤ → ℤ
gib (pos n) = pos (n / 1073741824)
gib (negsuc n) = sub_ℕ 0 (neg_part (negsuc n) / 1073741824)

-- `Match`: the checks in order, then the score.
unfoldable pub match : CapabilityCv → TaskSpec → ℤ
unfolding total_free
match cv spec =
    if ltb_ℤ (pos 0) spec.min_vram && ltb_ℤ (total_free (pos 0) cv.hardware.gpu) spec.min_vram
    then negsuc 0
    else if not (is_empty spec.model)
        && not (is_empty cv.models)
        && not (contains cv.models spec.model)
    then negsuc 0
    else if not (is_empty cv.tools) && not (all (contains cv.tools) spec.tools)
    then negsuc 0
    else if not (is_empty cv.labels)
        && not (is_empty spec.labels)
        && not (any_overlap cv.labels spec.labels)
    then negsuc 0
    else sub64 (gib cv.hardware.memory.free_bytes) spec.priority
