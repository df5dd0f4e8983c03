-- ===== src/Proc/Signal/Deliver/Ending.antt =====
-- kernel/src/proc/signal.rs: the loop of `deliver_pending` ends.
use Prim.Native.Nat.{ℕ, suc, ◌+◌, ◌<◌}
use roanix.Prelude.{Option, none, some, List, [], ◌∷◌, length}
use roanix.Proc.Signal.{SignalInfo, SignalManager}
use roanix.Proc.Signal.Deliver.{Turn, idle, dies, parks, skips, handles}

-- A turn without effect leaves fewer than `n` pending signals.
abbrev Shortens : ℕ → Turn × SignalManager → Type 0
Shortens n (skips, q) = length q.pending < n
Shortens n (idle, q) = Unit {0}
Shortens n (dies s, q) = Unit {0}
Shortens n (parks, q) = Unit {0}
Shortens n (handles f, q) = Unit {0}

-- The turns that the states behind the parks may take.
abbrev pub later_turns : List SignalManager → ℕ
later_turns [] = 0
later_turns (woken ∷ later) = suc (length woken.pending) + later_turns later

-- What is taken makes the queue shorter.
abbrev Taken : ℕ → Option SignalInfo × SignalManager → Type 0
Taken n (none, q) = Unit {0}
Taken n (some x, q) = length q.pending < n

abbrev Shorter : ℕ → Option (SignalInfo × List SignalInfo) → Type 0
Shorter n none = Unit {0}
Shorter n (some (x, rest)) = length rest < n
