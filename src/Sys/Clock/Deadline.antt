-- ===== src/Sys/Clock/Deadline.antt =====
-- kernel/src/sys/clock.rs: the timer of a CPU is programmed to its earliest deadline.
use Prim.Native.Nat.{ℕ}
use roanix.Prelude.{◌≡◌, Option, none, List, [], ◌∷◌}
use roanix.Sys.Clock.{
  Deadlines, TimerUpdate, unchanged, program, next, set_scheduler, set_callout, finish_interrupt,
}

-- What happens to the deadlines of a CPU.
pub data Change : Type 0 where
  schedules : ℕ → Change
  calls_out : Option ℕ → Change
  interrupts : ℕ → Option ℕ → Change

-- The timer beside the deadlines: what it was programmed to last.
pub record Timer : Type 0 where
  pub deadlines : Deadlines
  pub hardware : Option ℕ

abbrev pub off : Timer
off = record {
  deadlines = record { scheduler = none; callout = none; armed = none };
  hardware = none;
}

abbrev write : Option ℕ → TimerUpdate → Option ℕ
write hardware unchanged = hardware
write hardware (program deadline) = deadline

unfoldable pub apply : Change → Timer → Timer
apply (schedules deadline) t = record {
  deadlines = (set_scheduler t.deadlines deadline).1;
  hardware = write t.hardware (set_scheduler t.deadlines deadline).0;
}
apply (calls_out deadline) t = record {
  deadlines = (set_callout t.deadlines deadline).1;
  hardware = write t.hardware (set_callout t.deadlines deadline).0;
}
apply (interrupts now callout) t = record {
  deadlines = (finish_interrupt t.deadlines now callout).1;
  hardware = (finish_interrupt t.deadlines now callout).0;
}

unfoldable pub run : List Change → Timer → Timer
run [] t = t
run (c ∷ cs) t = run cs (apply c t)

-- The timer is programmed to the earliest deadline.
abbrev IsArmed : Timer → Type 0
IsArmed t = (t.deadlines.armed ≡ next t.deadlines) × (t.hardware ≡ next t.deadlines)
