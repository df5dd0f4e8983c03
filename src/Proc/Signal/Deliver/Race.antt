-- ===== src/Proc/Signal/Deliver/Race.antt =====
-- kernel/src/proc/signal.rs: SIGKILL between the take of a stop signal and the record of the park.
use Prim.Native.Nat.{ℕ, ◌≤◌}
use roanix.Prelude.{◌≡◌, refl, sym, ap, ◌∙◌, Bool, Option, none, some, List, arith}
use roanix.Proc.Signal.{
  SignalInfo, SignalManager, action, with_pending, taken, take_deliverable, remove_first, passes,
  enqueue, mark_stopped,
}
use roanix.Proc.Signal.Shrinking.{count}
use roanix.Proc.Signal.Pending.{is}
use roanix.Proc.Signal.Waiting.{kill-pends, enqueue-kill}
use roanix.Proc.Signal.Deliver.{disposition, stop, parks, deliver, turn_of}

taken-stopped :
    (m : SignalManager) (o : Option (SignalInfo × List SignalInfo))
    → (taken m o).1.stopped ≡ m.stopped
unfolding taken with_pending
taken-stopped m none = refl
taken-stopped m (some (x, rest)) = refl

take_deliverable-stopped : (m : SignalManager) → (take_deliverable m).1.stopped ≡ m.stopped
unfolding take_deliverable
take_deliverable-stopped m = taken-stopped m (remove_first (passes m.mask) m.pending)

action-enqueue :
    (m : SignalManager) (info : SignalInfo) (signal : ℕ)
    → action (enqueue m info).1 signal ≡ action m signal
unfolding action enqueue
action-enqueue m info signal = ground arith

module _ (frame_size user_stack thread sequence : ℕ) (write_frame : ℕ → Bool)
    (write_slot : ℕ → Bool) where
  -- A stop signal is taken from the process, which leaves `q`, and SIGKILL is sent. Ahead of the rest
  -- of the turn it wakes no thread, and the turn parks with it pending; behind the turn it
  -- wakes the thread.
  pub record Races (q : SignalManager) (taken_info info : SignalInfo) : Type 0 where
    pub wakes_none : (enqueue q info).0 ≡ none
    pub parks_then :
        turn_of frame_size user_stack thread sequence write_frame write_slot
          (some taken_info, (enqueue q info).1)
        ≡ (parks, mark_stopped (enqueue q info).1 thread sequence)
    pub pends : 1 ≤ count (is info.signal) (mark_stopped (enqueue q info).1 thread sequence).pending
    pub wakes_later :
        (enqueue
          (turn_of frame_size user_stack thread sequence write_frame write_slot
            (some taken_info, q)).1
          info).0
        ≡ some (thread, sequence)

  turn_of-stop :
      (q : SignalManager) (x : SignalInfo)
      → disposition (action q x.signal) x.signal ≡ stop
      → turn_of frame_size user_stack thread sequence write_frame write_slot (some x, q)
        ≡ (parks, mark_stopped q thread sequence)
  unfolding turn_of deliver
  turn_of-stop q x d = rw d refl

  mark_stopped-pending : (q : SignalManager) → (mark_stopped q thread sequence).pending ≡ q.pending
  unfolding mark_stopped
  mark_stopped-pending q = refl

  mark_stopped-stopped :
      (q : SignalManager) → (mark_stopped q thread sequence).stopped ≡ some (thread, sequence)
  unfolding mark_stopped
  mark_stopped-stopped q = refl

  -- While no thread is recorded as stopped, a turn takes a signal that stops the process. SIGKILL that
  -- is sent behind the take and ahead of the rest of the turn wakes no thread, and the turn parks
  -- with SIGKILL pending; sent behind the turn, SIGKILL wakes the thread that has parked.
  pub turn-kill :
      (m q : SignalManager) (x info : SignalInfo)
      → take_deliverable m ≡ (some x, q)
      → disposition (action q x.signal) x.signal ≡ stop
      → m.stopped ≡ none
      → info.signal ≡ 9
      → Races q x info
  turn-kill m q x info e d n k = record {
    wakes_none =
        enqueue-kill q info k ∙ ap (λ r. r.1.stopped) (sym e) ∙ take_deliverable-stopped m ∙ n;
    parks_then =
        turn_of-stop (enqueue q info).1 x
          (ap (λ a. disposition a x.signal) (action-enqueue q info x.signal) ∙ d);
    pends = rw (mark_stopped-pending (enqueue q info).1) (kill-pends q info k);
    wakes_later =
        ap (λ r. (enqueue r.1 info).0) (turn_of-stop q x d)
        ∙ enqueue-kill (mark_stopped q thread sequence) info k
        ∙ mark_stopped-stopped q;
  }
