-- ===== src/Hardware.antt =====
-- api/v1/domain/hardware/hardware.go: the hardware snapshots.
use lucinda.Base.{ℕ, Str, ℤ, pos, List, []}

-- The bit pattern of a `float64`; the model computes nothing with it.
abbrev pub Float64 : Type 0
Float64 = ℕ

pub record CpuSnapshot : Type 0 where
  pub cores : ℤ
  pub usage_pct : Float64

pub record MemorySnapshot : Type 0 where
  pub total_bytes : ℤ
  pub free_bytes : ℤ
  pub used_bytes : ℤ

pub record GpuSnapshot : Type 0 where
  pub device : Str
  pub total_vram : ℤ
  pub free_vram : ℤ
  pub used_vram : ℤ

pub record HardwareSnapshot : Type 0 where
  pub timestamp : ℤ
  pub cpu : CpuSnapshot
  pub memory : MemorySnapshot
  pub gpu : List GpuSnapshot

abbrev pub zero_gpu : GpuSnapshot
zero_gpu = record { device = []; total_vram = pos 0; free_vram = pos 0; used_vram = pos 0 }

abbrev pub zero_hardware : HardwareSnapshot
zero_hardware = record {
  timestamp = pos 0;
  cpu = record { cores = pos 0; usage_pct = 0 };
  memory = record { total_bytes = pos 0; free_bytes = pos 0; used_bytes = pos 0 };
  gpu = [];
}
