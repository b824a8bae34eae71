-- ===== src/Monitor.antt =====
-- pkg/infrastructure_layer/hardware_monitor/monitor.go, and `SignificantChange` of
-- api/v1/domain/hardware/hardware.go. The readings of the machine and the arithmetic of floats are
-- parameters.
pub mod Changes
use lucinda.Base.{
  ℤ, pos, negsuc, suc, wrap64, leb_ℤ, ◌*◌, ◌-◌, pos_part, neg_part, ltb_ℤ, List, [], ◌∷◌, Option,
  none, some, Bool, true, false, ◌==◌, ◌&&◌, ◌||◌, if◌then◌else◌, ◌+◌,
}
use lucinda.Hardware.{Float64, CpuSnapshot, MemorySnapshot, HardwareSnapshot, zero_hardware}

-- Go's operations on floats: `a > b`, `a - b`, `a / b`, and the conversion of an `int64`.
pub record FloatOps : Type 0 where
  pub gt : Float64 → Float64 → Bool
  pub minus : Float64 → Float64 → Float64
  pub over : Float64 → Float64 → Float64
  pub of_int : ℤ → Float64

-- The bit patterns of 10.0 and 0.05.
abbrev pub ten : Float64
ten = 0x4024000000000000

abbrev pub five_percent : Float64
five_percent = 0x3FA999999999999A

unfoldable pub abs_diff : FloatOps → Float64 → Float64 → Float64
abs_diff f a b = if f.gt a b then f.minus a b else f.minus b a

abbrev is_zero : ℤ → Bool
is_zero n = pos_part n + neg_part n == 0

abbrev pub memory_changed : FloatOps → ℤ → ℤ → Bool
memory_changed f prev curr =
    ltb_ℤ (pos 0) prev
    && f.gt (f.over (abs_diff f (f.of_int prev) (f.of_int curr)) (f.of_int prev)) five_percent

unfoldable pub significant_change : FloatOps → HardwareSnapshot → HardwareSnapshot → Bool
unfolding abs_diff
significant_change f prev curr =
    is_zero prev.timestamp
    || (f.gt (abs_diff f prev.cpu.usage_pct curr.cpu.usage_pct) ten
        || memory_changed f prev.memory.free_bytes curr.memory.free_bytes)

-- What a round reads: the clock, the number of cores, the usage, and the memory; either of the last
-- two may fail.
pub record Reading : Type 0 where
  pub now : ℤ
  pub cores : ℤ
  pub usage : Option (List Float64)
  pub memory : Option MemorySnapshot

-- `repeat_sec` is the interval of the polling, in seconds.
pub record Monitor : Type 0 where
  pub repeat_sec : ℤ
  pub is_started : Bool
  pub cache : HardwareSnapshot

pub data Error : Type 0 where
  already_started not_started : Error

unfoldable pub new_hardware_monitor : ℤ → Monitor
new_hardware_monitor repeat_sec = record {
  repeat_sec = repeat_sec;
  is_started = false;
  cache = zero_hardware;
}

abbrev usage_of : Option (List Float64) → Float64
usage_of none = 0
usage_of (some []) = 0
usage_of (some (p ∷ rest)) = p

unfoldable pub snapshot_of : Reading → HardwareSnapshot
snapshot_of r = record {
  timestamp = r.now;
  cpu = record { cores = r.cores; usage_pct = usage_of r.usage };
  memory = elim r.memory [ none ↦ zero_hardware.memory | some m ↦ m ];
  gpu = [];
}

-- `collect`: the snapshot that is published comes second.
unfoldable pub collect : FloatOps → Reading → Monitor → Monitor × Option HardwareSnapshot
unfolding snapshot_of significant_change
collect f r m =
    let snap = snapshot_of r in
    (record m { cache = snap }, if significant_change f m.cache snap then some snap else none)

-- How `Start` ends: the polling goes on in a goroutine, or there is an error, or NewTicker panics.
pub data Started : Type 0 where
  polls : Started
  fails : Error → Started
  panics : Started

-- The interval in nanoseconds, as an int64.
unfoldable pub period : ℤ → ℤ
unfolding wrap64
period (pos n) = wrap64 (pos (n * 1000000000))
period (negsuc n) = wrap64 (negsuc (suc n * 1000000000 - 1))

-- `Start`, with its first round, before the ticker. A ticker's interval has to be positive.
unfoldable pub start : FloatOps → Reading → Monitor → (Monitor × Option HardwareSnapshot) × Started
unfolding collect period
start f r m = if m.is_started then ((m, none), fails already_started) else (
  collect f r (record m { is_started = true }),
  if leb_ℤ (period m.repeat_sec) (pos 0) then panics else polls,
)

-- `Stop` does not end the polling, which the context does.
unfoldable pub stop : Monitor → Monitor × Option Error
stop m = if m.is_started then (record m { is_started = false }, none) else (m, some not_started)

unfoldable pub snapshot : Monitor → HardwareSnapshot
snapshot m = m.cache
