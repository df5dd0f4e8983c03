-- ===== src/Sys/Clock/Tests.antt =====
-- kernel/src/sys/clock.rs at concrete clock sources and deadlines.
use Prim.Native.Nat.{◌*◌, ◌≤◌}
use roanix.Prelude.{◌≡◌, ◌⊎◌, refl, some, arith, u64_max}
use roanix.Sys.Clock.{
  ClockScale, new, fits, ns_multiplier, cycles_multiplier, ns_to_cycles, scheduler_deadline,
}
use roanix.Sys.Clock.Scale.{IsScale, new-IsScale}
use roanix.Sys.Clock.Rounding.{ns_to_cycles_lem}

new-IsScale_example : (s : ClockScale) × (new 10000000 ≡ some s) × IsScale 10000000 s
new-IsScale_example = new-IsScale 10000000 (omega arith) (omega arith)

-- The scale of a 10 MHz counter.
abbrev ten_mhz : ClockScale
ten_mhz = record {
  ns_mult = 14073748835532800;
  ns_shift = 47;
  cycles_mult = 2814749767107;
  cycles_shift = 48;
}

ten_mhz-IsScale : IsScale 10000000 ten_mhz
unfolding fits ns_multiplier cycles_multiplier
ten_mhz-IsScale = record {
  ns_scale = refl;
  cycles_scale = refl;
  ns_fits = refl;
  cycles_fits = refl;
  ns_small = omega arith;
  cycles_small = omega arith;
}

ns_to_cycles_lem_example :
    (ns_to_cycles ten_mhz 150 ≡ u64_max) ⊎ (150 * 10000000 ≤ ns_to_cycles ten_mhz 150 * 1000000000)
ns_to_cycles_lem_example = ns_to_cycles_lem 10000000 150 ten_mhz ten_mhz-IsScale

-- 150 ns are two cycles of 100 ns.
rounded_up : ns_to_cycles ten_mhz 150 ≡ 2
unfolding ns_to_cycles
rounded_up = refl

-- An exhausted slice asks for the next nanosecond, and the statistics clock comes first.
slices :
    (scheduler_deadline 100 90 50 30 1000 ≡ 101)
    × (scheduler_deadline 100 90 10 30 1000 ≡ 110)
    × (scheduler_deadline 100 90 10 30 105 ≡ 105)
unfolding scheduler_deadline
slices = (refl, refl, refl)
