-- ===== src/Monitor/Changes.antt =====
-- pkg/infrastructure_layer/hardware_monitor/monitor.go: which readings are published.
use lucinda.Base.{
  ℕ, ◌≡◌, ◌<◌, ◌≤◌, refl, ℤ, pos, negsuc, wrap64, pos_part, neg_part, leb_ℤ, none, some, false,
  if◌then◌else◌, arith,
}
use lucinda.Hardware.{Float64, HardwareSnapshot}
use lucinda.Monitor.{
  Monitor, polls, panics, period, FloatOps, ten, five_percent, abs_diff, significant_change,
  Reading, new_hardware_monitor, snapshot_of, collect, start, snapshot,
}

-- What IEEE 754 says of a number and itself: it is not greater, and neither their difference nor a
-- quotient of it is greater than a positive number.
pub record SelfDifference (f : FloatOps) : Type 0 where
  pub irreflexive : (x : Float64) → f.gt x x ≡ false
  pub small : (x : Float64) → f.gt (f.minus x x) ten ≡ false
  pub small_part : (x y : Float64) → f.gt (f.over (f.minus x x) y) five_percent ≡ false

abs_diff_self : (f : FloatOps) (x : Float64) → SelfDifference f → abs_diff f x x ≡ f.minus x x
unfolding abs_diff
abs_diff_self f x laws = ground (arith, laws.irreflexive x)

-- Between two snapshots that differ in the time only.
same_but_time :
    (f : FloatOps) (s : HardwareSnapshot) (before : ℕ) (now : ℤ)
    → SelfDifference f
    → 0 < before
    → significant_change f (record s { timestamp = pos before }) (record s { timestamp = now })
      ≡ false
unfolding significant_change
same_but_time f s before now laws later =
    let x = f.of_int s.memory.free_bytes in
    rw
      (
        significant_change,
        abs_diff_self f s.cpu.usage_pct laws,
        abs_diff_self f x laws,
        laws.small s.cpu.usage_pct,
        laws.small_part x x,
      )
      (ground (arith, later))

-- Where the clock is past 0 and a float differs from itself by nothing, the first reading of a new
-- monitor is published and is the cache then, and a second reading that differs from it in the time
-- only is not published, but is the cache after it.
collect_twice :
    (f : FloatOps) (r : Reading) (sec : ℤ) (now : ℕ)
    → SelfDifference f
    → 0 < now
    → let r₁ = record r { now = pos now } in
      let (m, published) = (start f r₁ (new_hardware_monitor sec)).0 in
      let (m', published') = collect f r m in
      (published ≡ some (snapshot_of r₁))
      × (snapshot m ≡ snapshot_of r₁)
      × (published' ≡ none)
      × (snapshot m' ≡ snapshot_of r)
unfolding start collect new_hardware_monitor significant_change snapshot snapshot_of abs_diff
collect_twice f r sec now laws later =
    (refl, refl, rw (same_but_time f (snapshot_of r) now r.now laws later) refl, refl)

period_exact :
    (n : ℤ)
    → pos_part n ≤ 9223372036
    → neg_part n ≤ 9223372036
    → leb_ℤ (period n) (pos 0) ≡ leb_ℤ n (pos 0)
unfolding period wrap64
period_exact (pos n) above below = ground arith
period_exact (negsuc n) above below = ground arith

-- `Start` of a monitor that is not started publishes its first reading, if that is a change, before
-- it makes the ticker. If the interval is at most 2 ^ 63 nanoseconds either way, rounded down to seconds,
-- it then panics exactly if the interval is not positive, and polls if it is.
pub start_panics :
    (f : FloatOps) (r : Reading) (m : Monitor)
    → m.is_started ≡ false
    → pos_part m.repeat_sec ≤ 9223372036
    → neg_part m.repeat_sec ≤ 9223372036
    → (snapshot (start f r m).0.0 ≡ snapshot_of r)
      × ((start f r m).0.1
          ≡ (if significant_change f m.cache (snapshot_of r) then some (snapshot_of r) else none))
      × ((start f r m).1 ≡ (if leb_ℤ m.repeat_sec (pos 0) then panics else polls))
unfolding start collect snapshot
start_panics f r m idle above below =
    let e = period_exact m.repeat_sec above below in ground (arith, idle, e)
