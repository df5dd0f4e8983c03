-- ===== src/Proc/Signal/Calls.antt =====
-- kernel/src/proc/signal.rs: any sequence of operations on the signals of a process.
pub mod Actions
use Prim.Native.Nat.{ℕ, zero, suc, ◌+◌, ◌-◌, ◌/◌, ◌%◌, ◌≤◌, ◌<◌, bit_or, bit_and}
use roanix.Prelude.{
  ◌≡◌, inl, refl, ap, ◌∙◌, Bool, true, false, not, ◌&&◌, Option, none, some, List, [], ◌∷◌, Result,
  ok, err, ◌==◌, if◌then◌else◌, arith,
}
use roanix.Proc.Signal.{
  SignalAction, SignalInfo, SignalManager, SignalStack, has_signal, without_signal, blockable, new,
  fork_from, reset_for_exec, set_action, update_mask, restore_mask, replace_alt_stack,
  begin_suspend, take_suspend_restore_mask, prepare_interrupt_wait, prepare_signal_wait, enqueue,
  take_deliverable, take_matching_with, prepare_matching_wait, mark_stopped, remove_first, passes,
  interrupts_suspend,
}
use roanix.Proc.Signal.Shrinking.{count, remove_first-Leaves}
use roanix.Proc.Signal.Pending.{
  IsSignals, Shrinks-IsSignals, enqueue-IsSignals, taken-IsSignals, ready_or_wait-IsSignals,
  matched-IsSignals,
}
use roanix.Proc.Signal.Calls.Actions.{set_action-kept, set_action-wanted, reset_actions-wanted}

-- A call of an operation; `forks` and `executes` go on in the child and in the new program.
pub data Call : Type 0 where
  enqueues : SignalInfo → Call
  sets_action : ℕ → SignalAction → Call
  updates_mask : ℕ → ℕ → Call
  restores_mask : ℕ → Call
  replaces_stack : Option SignalStack → Call
  suspends : ℕ → Call
  takes_suspended waits_interrupted takes_deliverable forks executes : Call
  waits_signal : ℕ → Call
  takes_matching : ℕ → (SignalInfo → Bool) → Call
  waits_matching : ℕ → Call
  marks_stopped : ℕ → ℕ → Call

unfoldable pub masked : SignalManager → Result (Unit {0}) (ℕ × SignalManager) → SignalManager
masked m (ok (old, q)) = q
masked m (err e) = m

unfoldable pub apply : Call → SignalManager → SignalManager
apply (enqueues info) m = (enqueue m info).1
apply (sets_action signal a) m = (set_action m signal a).1
apply (updates_mask how mask) m = masked m (update_mask m how mask)
apply (restores_mask mask) m = restore_mask m mask
apply (replaces_stack stack) m = replace_alt_stack m stack
apply (suspends mask) m = begin_suspend m mask
apply takes_suspended m = (take_suspend_restore_mask m).1
apply waits_interrupted m = (prepare_interrupt_wait m).1
apply takes_deliverable m = (take_deliverable m).1
apply forks m = fork_from m
apply executes m = reset_for_exec m
apply (waits_signal mask) m = (prepare_signal_wait m mask).1
apply (takes_matching mask deliver) m = (take_matching_with m mask deliver).1
apply (waits_matching mask) m = (prepare_matching_wait m mask).1
apply (marks_stopped thread sequence) m = mark_stopped m thread sequence

unfoldable pub run : List Call → SignalManager → SignalManager
run [] m = m
run (c ∷ cs) m = run cs (apply c m)

pub blockable-open :
    (mask : ℕ) → (has_signal (blockable mask) 9 ≡ false) × (has_signal (blockable mask) 19 ≡ false)
unfolding blockable without_signal has_signal
blockable-open mask = ground arith

-- A state that differs in its mask, which `blockable` made.
masked-IsSignals :
    (m q : SignalManager) (mask : ℕ)
    → q.actions ≡ m.actions
    → q.pending ≡ m.pending
    → q.mask ≡ blockable mask
    → IsSignals m
    → IsSignals q
masked-IsSignals m q mask a e k v =
    let w =
      Shrinks-IsSignals m (record q { mask = m.mask }) a refl (λ t. omega (arith, ap (count t) e))
        v in
    record {
      once = w.once;
      apart = w.apart;
      wanted = w.wanted;
      kill_open = ap (λ x. has_signal x 9) k ∙ (blockable-open mask).0;
      stop_open = ap (λ x. has_signal x 19) k ∙ (blockable-open mask).1;
    }

update_mask-IsSignals :
    (m : SignalManager) (how mask : ℕ) → IsSignals m → IsSignals (masked m (update_mask m how mask))
unfolding update_mask masked
update_mask-IsSignals m how mask v = ground (
  arith,
  v,
  masked-IsSignals m (record m { mask = blockable (bit_or m.mask mask) }) (bit_or m.mask mask) refl
      refl refl v,
  masked-IsSignals m (record m { mask = blockable (m.mask - bit_and m.mask mask) })
      (m.mask - bit_and m.mask mask) refl refl refl v,
  masked-IsSignals m (record m { mask = blockable mask }) mask refl refl refl v,
)

-- A state that differs in what the invariant does not speak of.
same_signals :
    (m q : SignalManager)
    → q.actions ≡ m.actions
    → q.pending ≡ m.pending
    → q.mask ≡ m.mask
    → IsSignals m
    → IsSignals q
same_signals m q a e k v = Shrinks-IsSignals m q a k (λ t. omega (arith, ap (count t) e)) v

set_action-IsSignals :
    (m : SignalManager) (signal : ℕ) (a : SignalAction)
    → IsSignals m
    → IsSignals (set_action m signal a).1
set_action-IsSignals m signal a v =
    let w = set_action-kept m signal a v in
    record {
      once = w.once;
      apart = w.apart;
      wanted = set_action-wanted m signal a v.wanted;
      kill_open = w.kill_open;
      stop_open = w.stop_open;
    }

reset_for_exec-IsSignals : (m : SignalManager) → IsSignals m → IsSignals (reset_for_exec m)
unfolding reset_for_exec
reset_for_exec-IsSignals m v = record {
  once = v.once;
  apart = v.apart;
  wanted = reset_actions-wanted m.actions m.pending v.wanted;
  kill_open = v.kill_open;
  stop_open = v.stop_open;
}

fork_from-IsSignals : (m : SignalManager) → IsSignals m → IsSignals (fork_from m)
unfolding fork_from new
fork_from-IsSignals m v = record {
  once = λ s lt. omega arith;
  apart = inl refl;
  wanted = refl;
  kill_open = v.kill_open;
  stop_open = v.stop_open;
}

apply-IsSignals : (c : Call) (m : SignalManager) → IsSignals m → IsSignals (apply c m)
unfolding apply restore_mask replace_alt_stack begin_suspend take_suspend_restore_mask
    prepare_interrupt_wait prepare_signal_wait take_deliverable take_matching_with
    prepare_matching_wait mark_stopped
apply-IsSignals (enqueues info) m v = enqueue-IsSignals m info v
apply-IsSignals (sets_action signal a) m v = set_action-IsSignals m signal a v
apply-IsSignals (updates_mask how mask) m v = update_mask-IsSignals m how mask v
apply-IsSignals (restores_mask mask) m v = masked-IsSignals m _ mask refl refl refl v
apply-IsSignals (replaces_stack stack) m v = same_signals m _ refl refl refl v
apply-IsSignals (suspends mask) m v = masked-IsSignals m _ mask refl refl refl v
apply-IsSignals takes_suspended m v = same_signals m _ refl refl refl v
apply-IsSignals waits_interrupted m v =
    ground (arith, v, same_signals m (record m { event = false }) refl refl refl v)
apply-IsSignals takes_deliverable m v =
    taken-IsSignals m (remove_first (passes m.mask) m.pending)
      (remove_first-Leaves (passes m.mask) m.pending) v
apply-IsSignals forks m v = fork_from-IsSignals m v
apply-IsSignals executes m v = reset_for_exec-IsSignals m v
apply-IsSignals (waits_signal mask) m v =
    ready_or_wait-IsSignals m (remove_first (λ p. has_signal mask p.signal) m.pending)
      (remove_first-Leaves (λ p. has_signal mask p.signal) m.pending) v
apply-IsSignals (takes_matching mask deliver) m v =
    matched-IsSignals m deliver (remove_first (λ p. has_signal mask p.signal) m.pending)
      (remove_first-Leaves (λ p. has_signal mask p.signal) m.pending) v
apply-IsSignals (waits_matching mask) m v =
    ground (arith, v, same_signals m (record m { event = false }) refl refl refl v)
apply-IsSignals (marks_stopped thread sequence) m v = same_signals m _ refl refl refl v

new-IsSignals : IsSignals new
unfolding new has_signal
new-IsSignals = record {
  once = λ s lt. omega arith;
  apart = inl refl;
  wanted = refl;
  kill_open = refl;
  stop_open = refl;
}

run-IsSignals : (cs : List Call) (m : SignalManager) → IsSignals m → IsSignals (run cs m)
unfolding run
run-IsSignals [] m v = v
run-IsSignals (c ∷ cs) m v = run-IsSignals cs (apply c m) (apply-IsSignals c m v)

-- After any operations on the signals of a new process, through forks and new programs, a signal
-- below 35 pends at most once, SIGCONT never beside a signal that stops the process, none that is
-- ignored, and the mask holds back neither SIGKILL nor SIGSTOP.
pub run_new-IsSignals : (cs : List Call) → IsSignals (run cs new)
run_new-IsSignals cs = run-IsSignals cs new new-IsSignals
