-- ===== src/Proc/TimerFd/Expiry.antt =====
-- The counting of expirations of kernel/src/proc/timerfd.rs, over any calls on an armed timer.
use roanix.Prelude.{
  ℕ, ◌+◌, ◌*◌, ◌≤◌, ◌<◌, ◌≡◌, ap, ◌∙◌, Bool, true, false, not, ◌⊎◌, inl, inr, ltb, ◌==◌,
  if◌then◌else◌, u64_max, arith,
}
use native.Mathlib.Nat.{add-zero, zero-add}
use Prim.Native.Nat.{bit_and}
use mathlib.Core.Path.{subst}
use roanix.Proc.TimerFd.{
  TimerState, TimerFd, refresh, returns, errs, waits_changed, waits_timeout, read, poll, poll_in,
  current_time, set_nonblocking,
}
use roanix.Proc.TimerFd.Counting.{Counts, refresh-Counts}

-- The calls on a timer at instants that do not go back: the timer before, the instant at which it
-- is given, the expirations that reads have stored in user memory, the timer after, and the
-- instant of the last call.
abbrev pub stored : ℕ → (ℕ → Bool) → ℕ → ℕ → TimerFd → ℕ
stored len store now later t = elim ((read len store now later t).0) [
  | returns n ↦ (refresh t.state now).expirations
  | errs e ↦ 0
  | waits_changed ↦ 0
  | waits_timeout ns ↦ 0
]

pub data Runs (t : TimerFd) (from : ℕ) : ℕ → TimerFd → ℕ → Type 0 where
  begins : Runs t from 0 t from
  reads :
      (given last now later len : ℕ) (store : ℕ → Bool) (u : TimerFd)
      → Runs t from given u last
      → last ≤ now
      → Runs t from (given + stored len store now later u) (read len store now later u).1 now
  polls :
      (given last now requested : ℕ) (u : TimerFd)
      → Runs t from given u last
      → last ≤ now
      → Runs t from given (poll requested now u).1 now
  asks :
      (given last now : ℕ) (u : TimerFd)
      → Runs t from given u last
      → last ≤ now
      → Runs t from given (current_time u now) now
  switches :
      (given last : ℕ) (nonblocking : Bool) (u : TimerFd)
      → Runs t from given u last
      → Runs t from given (set_nonblocking nonblocking u) last

module _ (first interval : ℕ) (periodic : 0 < interval) where
  -- The invariant of a timer, for the expirations that have been handed out.
  abbrev Holds : ℕ → TimerFd → ℕ → Type 0
  Holds given t last = Counts first interval (given + t.state.expirations) last t.state

  Counts-later :
      (count last now : ℕ) (s : TimerState)
      → Counts first interval count last s
      → last ≤ now
      → Counts first interval count now s
  Counts-later count last now s v order = record {
    period = v.period;
    due = v.due;
    later = still v.later;
    armed = v.armed;
  }
    where
      still :
          (count ≡ 0) ⊎ (s.deadline_ns ≤ last + interval)
          → (count ≡ 0) ⊎ (s.deadline_ns ≤ now + interval)
      still (inl z) = inl z
      still (inr h) = inr (omega arith)

  -- What a call leaves, for the expirations that it has handed out.
  Keeps : ℕ → TimerState → TimerState → Type 0
  Keeps out s t =
      (t.deadline_ns ≡ s.deadline_ns)
      × (t.interval_ns ≡ s.interval_ns)
      × (out + t.expirations ≡ s.expirations)

  Counts-Keeps :
      (given out last : ℕ) (s t : TimerState)
      → Counts first interval (given + s.expirations) last s
      → Keeps out s t
      → Counts first interval (given + out + t.expirations) last t
  unfolding Keeps
  Counts-Keeps given out last s t v (d, i, x) =
      let n : given + s.expirations ≡ given + out + t.expirations = omega (arith, x) in
      let w : Counts first interval (given + out + t.expirations) last s =
        subst (λ c. Counts first interval c last s) n v in
      record { period = i ∙ w.period; due = d ∙ w.due; later = rw d w.later; armed = rw d w.armed }

  read-Keeps :
      (now later len : ℕ) (store : ℕ → Bool) (t : TimerFd)
      → Keeps
          (stored len store now later t)
          (if not (ltb len 8) then refresh t.state now else t.state)
          (read len store now later t).1.state
  unfolding Keeps read
  read-Keeps now later len store t = ground arith

  poll-Keeps :
      (requested now : ℕ) (t : TimerFd)
      → Keeps 0
          (if bit_and requested poll_in == poll_in then refresh t.state now else t.state)
          (poll requested now t).1.state
  unfolding Keeps poll
  poll-Keeps requested now t = ground arith

  refreshed-or_not :
      (b : Bool) (given last now : ℕ) (t : TimerFd)
      → Holds given t last
      → last ≤ now
      → now + interval ≤ u64_max
      → let s = if b then refresh t.state now else t.state in
        Counts first interval (given + s.expirations) now s
  refreshed-or_not true given last now t v order fits =
      (refresh-Counts first interval given last now t.state periodic v order fits).0
  refreshed-or_not false given last now t v order fits =
      Counts-later (given + t.state.expirations) last now t.state v order

  Runs-Holds :
      (t : TimerFd) (from given : ℕ) (u : TimerFd) (last : ℕ)
      → Runs t from given u last
      → Holds 0 t from
      → last + interval ≤ u64_max
      → Holds given u last
  unfolding current_time set_nonblocking
  Runs-Holds t from _ _ _ begins v fits = v
  Runs-Holds t from _ _ _ (reads given last now later len store u runs order) v fits =
      let w = Runs-Holds t from given u last runs v (omega arith) in
      Counts-Keeps given (stored len store now later u) now
        (if not (ltb len 8) then refresh u.state now else u.state)
        (read len store now later u).1.state
        (refreshed-or_not (not (ltb len 8)) given last now u w order fits)
        (read-Keeps now later len store u)
  Runs-Holds t from _ _ _ (polls given last now requested u runs order) v fits =
      let w = Runs-Holds t from given u last runs v (omega arith) in
      rw (← add-zero given) (
        Counts-Keeps given 0 now
          (if bit_and requested poll_in == poll_in then refresh u.state now else u.state)
          (poll requested now u).1.state
          (refreshed-or_not (bit_and requested poll_in == poll_in) given last now u w order fits)
          (poll-Keeps requested now u))
  Runs-Holds t from _ _ _ (asks given last now u runs order) v fits =
      refreshed-or_not true given last now u (Runs-Holds t from given u last runs v (omega arith))
        order fits
  Runs-Holds t from _ _ _ (switches given last nonblocking u runs) v fits =
      Runs-Holds t from given u last runs v fits

-- A timer armed for the instant `first` and every `interval` from there on loses no expiration and
-- counts none twice. After any reads, polls and queries at instants that do not go back, those
-- whose copy to user memory faults included, the expirations handed out and the pending ones add
-- up to the number `c` of instants `first`, `first + interval`, … up to `now`, as long as no
-- instant of these is within an interval of the end of the clock.
pub Runs-expirations :
    (first interval : ℕ) (t u : TimerFd) (from given last now : ℕ)
    → 0 < first
    → 0 < interval
    → t.state ≡ record { deadline_ns = first; interval_ns = interval; expirations = 0 }
    → Runs t from given u last
    → last ≤ now
    → now + interval ≤ u64_max
    → let c = given + (current_time u now).state.expirations in
      (now < first + interval * c) × ((c ≡ 0) ⊎ (first + interval * c ≤ now + interval))
unfolding current_time
Runs-expirations first interval t u from given last now armed periodic start runs order fits =
    let begun : Counts first interval (0 + t.state.expirations) from t.state = record {
      period = ap (λ s. s.interval_ns) start;
      due = rw start (omega arith);
      later = inl (zero-add t.state.expirations ∙ ap (λ s. s.expirations) start);
      armed = rw start armed;
    } in
    let (v, later) =
      refresh-Counts first interval given last now u.state periodic
        (Runs-Holds first interval periodic t from given u last runs begun (omega arith)) order
        fits in
    (omega (arith, v.due), rw (← v.due) v.later)
