-- ===== src/Proc/TimerFd.antt =====
-- kernel/src/proc/timerfd.rs: timers behind descriptors. The clock's readings are arguments; a
-- round of `read` returns or says what it waits for. Words are little-endian in memory.
pub mod Counting
pub mod Expiry
pub mod Timespec
mod Tests
use Prim.Native.Nat.{bit_and, bit_or}
use roanix.Prelude.{
  ℕ, zero, suc, ◌+◌, ◌-◌, ◌*◌, ◌/◌, ◌%◌, ◌^◌, max, Bool, true, false, not, ◌&&◌, ◌||◌, Option, none,
  some, List, [], ◌∷◌, ◌++◌, take, drop, ltb, leb, ◌==◌, if◌then◌else◌, saturating_add,
  saturating_mul, checked_add, u64_mod, Result, ok, err, ◌>>=◌,
}
use roanix.Prelude.Bytes.{to_bytes, from_bytes}

abbrev pub clock_realtime : ℕ
clock_realtime = 0

abbrev pub clock_monotonic : ℕ
clock_monotonic = 1

abbrev pub clock_boottime : ℕ
clock_boottime = 7

abbrev pub tfd_nonblock : ℕ
tfd_nonblock = 2048

abbrev pub tfd_cloexec : ℕ
tfd_cloexec = 524288

abbrev pub tfd_timer_abstime : ℕ
tfd_timer_abstime = 1

abbrev pub tfd_timer_cancel_on_set : ℕ
tfd_timer_cancel_on_set = 2

abbrev pub nanoseconds_per_second : ℕ
nanoseconds_per_second = 1000000000

-- The errors that these operations return.
pub data Errno : Type 0 where
  invalid fault try_again overflow : Errno

pub record TimerState : Type 0 where
  pub deadline_ns : ℕ
  pub interval_ns : ℕ
  pub expirations : ℕ

pub record TimerFd : Type 0 where
  pub clock_id : ℕ
  pub state : TimerState
  pub changed : Bool
  pub nonblocking : Bool

unfoldable pub new : ℕ → Bool → TimerFd
new clock_id nonblocking = record {
  clock_id = clock_id;
  state = record { deadline_ns = 0; interval_ns = 0; expirations = 0 };
  changed = false;
  nonblocking = nonblocking;
}

-- Counts the expirations up to `now` and moves the deadline past it.
unfoldable pub refresh : TimerState → ℕ → TimerState
refresh s now =
    if s.deadline_ns == 0 || ltb now s.deadline_ns
    then s
    else if s.interval_ns == 0
    then record s { deadline_ns = 0; expirations = saturating_add s.expirations 1 }
    else (let count = saturating_add ((now - s.deadline_ns) / s.interval_ns) 1 in
        record s {
          deadline_ns = saturating_add s.deadline_ns (saturating_mul s.interval_ns count);
          expirations = saturating_add s.expirations count;
        })

-- `saturating_sub`
unfoldable pub remaining_ns : TimerState → ℕ → ℕ
remaining_ns s now = s.deadline_ns - now

-- Whether a word has bits outside of `allowed`: those shared with its complement.
unfoldable pub outside : ℕ → ℕ → Bool
outside flags allowed = not (bit_and flags allowed == flags)

unfoldable pub bad_flags : TimerFd → ℕ → Bool
bad_flags t flags =
    outside flags (bit_or tfd_timer_abstime tfd_timer_cancel_on_set)
    || (not (bit_and flags tfd_timer_cancel_on_set == 0)
        && (not (t.clock_id == clock_realtime) || bit_and flags tfd_timer_abstime == 0))

-- `set_time` at a reading of the clock: the previous state, and the timer.
unfoldable pub set_time : TimerFd → ℕ → ℕ → ℕ → ℕ → Result Errno (TimerState × TimerFd)
set_time t flags interval_ns value_ns now =
    if bad_flags t flags
    then err invalid
    else (let deadline =
          if value_ns == 0
          then 0
          else if not (bit_and flags tfd_timer_abstime == 0)
          then value_ns
          else saturating_add now value_ns in
        ok (
          refresh t.state now,
          record t {
            state = record { deadline_ns = deadline; interval_ns = interval_ns; expirations = 0 };
            changed = true;
          },
        ))

-- The state that `current_time` returns is the one that it leaves.
unfoldable pub current_time : TimerFd → ℕ → TimerFd
current_time t now = record t { state = refresh t.state now }

-- One round of a read: a count of bytes, an error, a wait on the event `changed`, or such a wait
-- with a timeout.
pub data Round : Type 0 where
  returns : ℕ → Round
  errs : Errno → Round
  waits_changed : Round
  waits_timeout : ℕ → Round

-- `later` is the second reading of the clock; `store` tells whether a count reaches user memory.
unfoldable pub read : ℕ → (ℕ → Bool) → ℕ → ℕ → TimerFd → Round × TimerFd
read len store now later t =
    if ltb len 8
    then (errs invalid, t)
    else (let s = refresh t.state now in
        if not (s.expirations == 0)
        then (if store s.expirations
            then (returns 8, record t { state = record s { expirations = 0 } })
            else (errs fault, record t { state = s }))
        else if t.nonblocking
        then (errs try_again, record t { state = s })
        else (
          if s.deadline_ns == 0
              then waits_changed
              else waits_timeout (max (remaining_ns s later) 1),
          record t { state = s; changed = false },
        ))

abbrev pub poll_in : ℕ
poll_in = 0x0001

unfoldable pub poll : ℕ → ℕ → TimerFd → ℕ × TimerFd
poll requested now t =
    if bit_and requested poll_in == poll_in
    then (let s = refresh t.state now in
        (if not (s.expirations == 0) then poll_in else 0, record t { state = s }))
    else (0, t)

unfoldable pub set_nonblocking : Bool → TimerFd → TimerFd
set_nonblocking nonblocking t = record t { nonblocking = nonblocking; changed = true }

-- The test of `timerfd_create`, and the timer that it installs.
unfoldable pub create : ℕ → ℕ → Result Errno TimerFd
create clock_id flags =
    if not (clock_id == clock_realtime || clock_id == clock_monotonic || clock_id == clock_boottime)
      || outside flags (bit_or tfd_nonblock tfd_cloexec)
    then err invalid
    else ok (new clock_id (not (bit_and flags tfd_nonblock == 0)))

-- The tests of `decode_timespec`. A word stands for a negative integer from `2 ^ 63` on.
unfoldable pub decode_words : ℕ → ℕ → Result Errno ℕ
decode_words seconds nanoseconds =
    if leb (2 ^ 63) seconds || leb nanoseconds_per_second nanoseconds
    then err invalid
    else if leb u64_mod (seconds * nanoseconds_per_second)
    then err overflow
    else elim (checked_add (seconds * nanoseconds_per_second) nanoseconds) [
      | none ↦ err overflow
      | some value ↦ ok value
    ]

unfoldable pub decode_timespec : List ℕ → Result Errno ℕ
decode_timespec bytes =
    decode_words (from_bytes (take 8 bytes)) (from_bytes (take 8 (drop 8 bytes)))

unfoldable pub encode_timespec : ℕ → List ℕ
encode_timespec nanoseconds =
    to_bytes 8 (nanoseconds / nanoseconds_per_second)
    ++ to_bytes 8 (nanoseconds % nanoseconds_per_second)

-- An `itimerspec` in user memory: the interval and then the value.
unfoldable pub read_user_itimerspec : List ℕ → Result Errno (ℕ × ℕ)
read_user_itimerspec memory = do
  interval ← decode_timespec (take 16 memory)
  value ← decode_timespec (take 16 (drop 16 memory))
  ok (interval, value)

unfoldable pub write_user_itimerspec : ℕ → ℕ → List ℕ
write_user_itimerspec interval_ns value_ns = encode_timespec interval_ns ++ encode_timespec value_ns

-- `syscall_timerfd_settime` from the read of the new value on: the timer, and the bytes that
-- go to `old_value`, at a second reading `later` of the clock.
unfoldable pub settime : TimerFd → ℕ → List ℕ → ℕ → ℕ → Result Errno (TimerFd × List ℕ)
settime t flags memory now later = do
  new_value ← read_user_itimerspec memory
  set ← set_time t flags new_value.0 new_value.1 now
  ok (set.1, write_user_itimerspec set.0.interval_ns (remaining_ns set.0 later))

-- `syscall_timerfd_gettime`: the timer, and the bytes that go to `value`.
unfoldable pub gettime : TimerFd → ℕ → ℕ → TimerFd × List ℕ
gettime t now later =
    let s = current_time t now in
    (s, write_user_itimerspec s.state.interval_ns (remaining_ns s.state later))
