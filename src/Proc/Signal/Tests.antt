-- ===== src/Proc/Signal/Tests.antt =====
-- kernel/src/proc/signal.rs at concrete processes.
use Prim.Native.Nat.{ℕ, ◌+◌, ◌%◌, ◌≤◌}
use roanix.Prelude.{◌≡◌, refl, Bool, true, false, none, List, [], ◌∷◌, ◌++◌}
use roanix.Proc.Signal.{
  SignalAction, SignalInfo, SignalManager, default_action, ready, has_signal, without_signal,
  blockable, new, action, set_action, retain, any, remove_first, passes, with_pending, taken,
  take_deliverable, ready_or_wait, prepare_signal_wait, ignored, purge, duplicate, enqueue,
  is_stop_signal, default_ignored, restore_mask, take_suspend_restore_mask,
}
use roanix.Proc.Signal.Pending.{IsSignals}
use roanix.Proc.Signal.Calls.{Call, enqueues, sets_action, apply, run, run_new-IsSignals}
use roanix.Proc.Signal.Waiting.{IsTaken, take_deliverable_lem, prepare_signal_wait-enqueue}
use roanix.Proc.Signal.Deliver.{
  Frame, deliver_pending, deliver_loop, signal_frame_addresses, turn, turn_of, deliver, disposition,
  proceed, handle, write_frames, started, entered, handler_stack, handler_mask, unless_none,
}
use roanix.Proc.Signal.Deliver.Frames.{signal_frame_addresses_lem}
use roanix.Proc.Signal.Deliver.Race.{Races, turn-kill}
use roanix.Proc.Signal.Deliver.Masks.{restore_mask-deliver_pending}

abbrev sent : ℕ → SignalInfo
sent signal = record {
  signal = signal;
  code = 0;
  sender_pid = 5;
  sender_uid = 0;
  synchronous = false;
}

-- A handler for SIGINT, whose mask holds SIGHUP back.
abbrev handler : SignalAction
handler = record { handler = 0x400000; flags = 0; restorer = 0x400100; mask = 1 }

-- SIGINT twice and SIGTSTP pend where SIGINT has a handler; then SIGCONT comes.
abbrev calls : List Call
calls = sets_action 2 handler ∷ enqueues (sent 2) ∷ enqueues (sent 20) ∷ enqueues (sent 2) ∷ []

abbrev waiting : SignalManager
waiting = record {
  actions =
      default_action ∷ default_action ∷ handler ∷ default_action ∷ default_action ∷ default_action
      ∷ default_action ∷ default_action ∷ default_action ∷ default_action ∷ default_action ∷ [];
  pending = sent 2 ∷ [];
  mask = 4;
  alt_stack = none;
  suspend_restore_mask = none;
  stopped = none;
  pending_work = true;
  event = true;
}

queued :
    ((run calls new).pending ≡ sent 2 ∷ sent 20 ∷ [])
    × ((run (calls ++ enqueues (sent 18) ∷ []) new).pending ≡ sent 2 ∷ sent 18 ∷ [])
unfolding run apply new set_action enqueue purge duplicate ignored is_stop_signal retain any action
queued = (refl, refl)

run_new-IsSignals_example : IsSignals (run calls new)
run_new-IsSignals_example = run_new-IsSignals calls

take_deliverable_lem_example : IsTaken waiting (take_deliverable waiting)
take_deliverable_lem_example = take_deliverable_lem waiting

-- A thread that waits for SIGTERM.
prepare_signal_wait-enqueue_example :
    let q = (enqueue (prepare_signal_wait (record new { mask = 4 }) 16384).1 (sent 15)).1 in
    (q.event ≡ true) × ((prepare_signal_wait q 16384).0 ≡ ready (sent 15))
unfolding prepare_signal_wait new has_signal ready_or_wait remove_first any ignored
prepare_signal_wait-enqueue_example =
    prepare_signal_wait-enqueue (record new { mask = 4 }) 16384 (sent 15) refl refl refl

abbrev works : ℕ → Bool
works address = true

-- A process with SIGSTOP pending; SIGINT pends when its thread is woken.
abbrev stopping : SignalManager
stopping = record waiting { pending = sent 19 ∷ [] }

turn-kill_example :
    Races 800 0x7fff0000 7 1 works works
      (record stopping { pending = []; event = false })
      (sent 19)
      (sent 9)
unfolding take_deliverable taken with_pending remove_first passes disposition
turn-kill_example =
    turn-kill 800 0x7fff0000 7 1 works works stopping
      (record stopping { pending = []; event = false }) (sent 19) (sent 9) refl refl refl refl

abbrev frame : Frame
frame = record {
  info = sent 2;
  old_mask = 4;
  address = 0x7ffefc50;
  return_slot = 0x7ffefc48;
  handler = 0x400000;
  restorer = 0x400100;
}

-- While the handler runs, SIGHUP, SIGINT and SIGQUIT are held back.
abbrev entered_state : SignalManager
entered_state = record waiting { pending = []; mask = 7; event = false; pending_work = false }

restore_mask-deliver_pending_example : (restore_mask entered_state frame.old_mask).mask ≡ 4
unfolding deliver_pending deliver_loop turn turn_of proceed deliver disposition handle write_frames
    started entered handler_stack handler_mask unless_none signal_frame_addresses take_deliverable
    taken with_pending remove_first passes has_signal action restore_mask take_suspend_restore_mask
    blockable without_signal is_stop_signal default_ignored
restore_mask-deliver_pending_example =
    restore_mask-deliver_pending 800 0x7fff0000 7 1 works works 2 [] waiting entered_state frame
      refl tt refl refl

signal_frame_addresses_lem_example :
    (0x7ffefc50 % 16 ≡ 0)
    × (0x7ffefc50 + 800 + 128 ≤ 0x7fff0000)
    × (0x7ffefc48 + 8 ≡ 0x7ffefc50)
    × (0x10000 ≤ 0x7ffefc48)
unfolding signal_frame_addresses
signal_frame_addresses_lem_example =
    signal_frame_addresses_lem 0x7fff0000 800 0x7ffefc50 0x7ffefc48 refl
