-- ===== src/Sys/Clock.antt =====
-- kernel/src/sys/clock.rs: the scales between counter cycles and nanoseconds, and the deadlines that
-- the timer of a CPU is armed for. A failed assertion is none.
pub mod Scale
pub mod Rounding
pub mod Deadline
mod Tests
use roanix.Prelude.{
  ℕ, zero, suc, ◌+◌, ◌-◌, ◌*◌, ◌/◌, ◌^◌, min, max, Bool, true, false, not, ◌&&◌, Option, none, some,
  leb, ◌==◌, if◌then◌else◌, saturating_add, u64_max,
}

abbrev pub clock_scale_max_shift : ℕ
clock_scale_max_shift = 48

abbrev pub nsec_per_sec : ℕ
nsec_per_sec = 1000000000

pub record ClockScale : Type 0 where
  pub ns_mult : ℕ
  pub ns_shift : ℕ
  pub cycles_mult : ℕ
  pub cycles_shift : ℕ

-- `(1..=u64::MAX as u128).contains(&multiplier)`
unfoldable pub fits : ℕ → Bool
fits multiplier = leb 1 multiplier && leb multiplier u64_max

-- A loop of `new` from a shift down: the first multiplier that fits, with its shift.
unfoldable pub find_shift : (ℕ → ℕ) → ℕ → Option (ℕ × ℕ)
find_shift multiplier zero = if fits (multiplier 0) then some (multiplier 0, 0) else none
find_shift multiplier (suc shift) =
    let rest = find_shift multiplier shift in
    if fits (multiplier (suc shift)) then some (multiplier (suc shift), suc shift) else rest

unfoldable pub ns_multiplier : ℕ → ℕ → ℕ
ns_multiplier frequency shift = (nsec_per_sec * 2 ^ shift + frequency / 2) / frequency

-- `(frequency * unit).div_ceil(NSEC_PER_SEC)`
unfoldable pub cycles_multiplier : ℕ → ℕ → ℕ
cycles_multiplier frequency shift = (frequency * 2 ^ shift + (nsec_per_sec - 1)) / nsec_per_sec

unfoldable pub scale_of : Option (ℕ × ℕ) → Option (ℕ × ℕ) → Option ClockScale
scale_of none cycles = none
scale_of (some ns) none = none
scale_of (some ns) (some cycles) =
    some
      (record { ns_mult = ns.0; ns_shift = ns.1; cycles_mult = cycles.0; cycles_shift = cycles.1 })

unfoldable pub new : ℕ → Option ClockScale
new frequency =
    if frequency == 0
    then none
    else scale_of (find_shift (ns_multiplier frequency) clock_scale_max_shift)
        (find_shift (cycles_multiplier frequency) clock_scale_max_shift)

unfoldable pub cycles_to_ns : ClockScale → ℕ → ℕ
cycles_to_ns s cycles = min (cycles * s.ns_mult / 2 ^ s.ns_shift) u64_max

unfoldable pub ns_to_cycles : ClockScale → ℕ → ℕ
ns_to_cycles s ns =
    if ns == 0
    then 0
    else min (max ((ns * s.cycles_mult + (2 ^ s.cycles_shift - 1)) / 2 ^ s.cycles_shift) 1) u64_max

-- A write to the timer, or none.
pub data TimerUpdate : Type 0 where
  unchanged : TimerUpdate
  program : Option ℕ → TimerUpdate

pub record Deadlines : Type 0 where
  pub scheduler : Option ℕ
  pub callout : Option ℕ
  pub armed : Option ℕ

unfoldable pub earlier : Option ℕ → Option ℕ → Option ℕ
earlier none b = b
earlier (some a) none = some a
earlier (some a) (some b) = some (min a b)

unfoldable pub next : Deadlines → Option ℕ
next d = earlier d.scheduler d.callout

-- Equality of optional deadlines.
unfoldable pub same : Option ℕ → Option ℕ → Bool
same none none = true
same (some a) (some b) = a == b
same none (some b) = false
same (some a) none = false

unfoldable pub changed : Deadlines → TimerUpdate × Deadlines
changed d =
    if same (next d) d.armed
    then (unchanged, d)
    else (program (next d), record d { armed = next d })

unfoldable pub set_scheduler : Deadlines → ℕ → TimerUpdate × Deadlines
set_scheduler d deadline =
    changed (record d { scheduler = if not (deadline == 0) then some deadline else none })

unfoldable pub set_callout : Deadlines → Option ℕ → TimerUpdate × Deadlines
set_callout d deadline = changed (record d { callout = deadline })

-- `scheduler.is_some_and(|deadline| deadline <= now)`, then `None`.
unfoldable pub without_due : ℕ → Option ℕ → Option ℕ
without_due now none = none
without_due now (some deadline) = if leb deadline now then none else some deadline

unfoldable pub finish_interrupt : Deadlines → ℕ → Option ℕ → Option ℕ × Deadlines
finish_interrupt d now callout =
    let q = record d { callout = callout; scheduler = without_due now d.scheduler } in
    (next q, record q { armed = next q })

unfoldable pub scheduler_deadline : ℕ → ℕ → ℕ → ℕ → ℕ → ℕ
scheduler_deadline now last_run consumed quantum statclock =
    min (max (saturating_add last_run (quantum - consumed)) (saturating_add now 1)) statclock
