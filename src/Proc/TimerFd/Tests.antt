-- ===== src/Proc/TimerFd/Tests.antt =====
-- kernel/src/proc/timerfd.rs at concrete timers.
use roanix.Prelude.{ℕ, ◌+◌, ◌*◌, ◌≤◌, ◌<◌, ◌≡◌, refl, ◌⊎◌, Bool, true, false, arith}
use roanix.Proc.TimerFd.{TimerFd, refresh, read, current_time}
use roanix.Proc.TimerFd.Expiry.{Runs, begins, reads, Runs-expirations}

-- A timer armed for 10 and every 5 from there on.
abbrev armed : TimerFd
armed = record {
  clock_id = 1;
  state = record { deadline_ns = 10; interval_ns = 5; expirations = 0 };
  changed = true;
  nonblocking = false;
}

abbrev after : TimerFd
after = record armed { state = record { deadline_ns = 25; interval_ns = 5; expirations = 0 } }

abbrev taken : ℕ → Bool
taken count = true

-- A read at 21 hands out the expirations of 10, 15 and 20.
armed-Runs : Runs armed 0 3 after 21
unfolding read refresh
armed-Runs = reads 0 0 21 22 8 taken armed begins (omega arith)

Runs-expirations_example :
    (31 < 10 + 5 * (3 + (current_time after 31).state.expirations))
    × ((3 + (current_time after 31).state.expirations ≡ 0)
        ⊎ (10 + 5 * (3 + (current_time after 31).state.expirations) ≤ 31 + 5))
Runs-expirations_example =
    Runs-expirations 10 5 armed after 0 3 21 31 (omega arith) (omega arith) refl armed-Runs
      (omega arith) (omega arith)
