-- ===== src/Proc/Signal/Deliver.antt =====
-- kernel/src/proc/signal.rs: `deliver_pending`, the frame of a handler, and the return from it. The
-- writes to user memory are parameters, which say whether they succeed.
pub mod Frames
pub mod Ending
pub mod Masks
pub mod Race
use Prim.Native.Nat.{bit_and, bit_or}
use roanix.Prelude.{
  ℕ, zero, suc, ◌+◌, ◌-◌, ◌^◌, Bool, true, false, not, ◌&&◌, ◌||◌, Option, none, some, List, [],
  ◌∷◌, ltb, leb, ◌==◌, if◌then◌else◌,
}
use roanix.Prelude.Bits.{mask_down}
use roanix.Proc.Signal.{
  SignalAction, default_action, SignalInfo, SignalStack, SignalManager, sigkill, sigstop, sig_dfl,
  sig_ign, is_stop_signal, default_ignored, action, restore_mask, set_action, take_deliverable,
  take_suspend_restore_mask, mark_stopped,
}

abbrev pub sigsegv : ℕ
sigsegv = 11

abbrev pub sa_onstack : ℕ
sa_onstack = 0x8000000

abbrev pub sa_nodefer : ℕ
sa_nodefer = 0x40000000

abbrev pub sa_resethand : ℕ
sa_resethand = 0x80000000

abbrev pub user_address_min : ℕ
user_address_min = 0x10000

unfoldable pub stack_contains : SignalStack → ℕ → Bool
stack_contains s pointer =
    ltb (s.pointer + s.size) (2 ^ 64) && leb s.pointer pointer && ltb pointer (s.pointer + s.size)

-- `u64::checked_sub`
unfoldable pub checked_sub : ℕ → ℕ → Option ℕ
checked_sub a b = if ltb a b then none else some (a - b)

-- On x86_64: the address of the frame and that of the return slot.
unfoldable pub signal_frame_addresses : ℕ → ℕ → Option (ℕ × ℕ)
signal_frame_addresses stack frame_size =
    if ltb stack 128
    then none
    else if ltb (stack - 128) frame_size
    then none
    else if ltb (stack - 128 - frame_size) 15
    then none
    else (let frame_address = mask_down (stack - 128 - frame_size - 15) 16 in
        if ltb frame_address 8
        then none
        else if leb user_address_min (frame_address - 8)
        then some (frame_address, frame_address - 8)
        else none)

-- What the handler of a signal starts with.
pub record Frame : Type 0 where
  pub info : SignalInfo
  pub old_mask : ℕ
  pub address : ℕ
  pub return_slot : ℕ
  pub handler : ℕ
  pub restorer : ℕ

-- How a turn of the loop ends: nothing to deliver, the death of the process by a signal, a thread
-- that parks, a signal without effect, or a handler's start.
pub data Turn : Type 0 where
  idle : Turn
  dies : ℕ → Turn
  parks : Turn
  skips : Turn
  handles : Frame → Turn

unfoldable pub unless_none : Option ℕ → ℕ → ℕ
unless_none none d = d
unless_none (some x) d = x

-- The stack of the handler.
unfoldable pub handler_stack : SignalManager → SignalAction → ℕ → ℕ
handler_stack m a user_stack =
    if bit_and a.flags sa_onstack == 0 then user_stack else on_stack m.alt_stack
  where
    on_stack : Option SignalStack → ℕ
    on_stack none = user_stack
    on_stack (some s) =
        if stack_contains s user_stack
        then user_stack
        else if ltb (s.pointer + s.size) (2 ^ 64)
        then s.pointer + s.size
        else user_stack

-- The mask while the handler runs.
unfoldable pub handler_mask : ℕ → SignalAction → ℕ → ℕ
handler_mask active a signal =
    let mask = bit_or active a.mask in
    if bit_and a.flags sa_nodefer == 0 then bit_or mask (2 ^ (signal - 1)) else mask

-- The state that a handler starts in.
unfoldable pub entered : SignalManager → SignalInfo → SignalManager
entered m info =
    let a = action m info.signal in
    let q = restore_mask (take_suspend_restore_mask m).1 (handler_mask m.mask a info.signal) in
    if bit_and a.flags sa_resethand == 0 then q else (set_action q info.signal default_action).1

-- Whether the writes succeeded.
unfoldable pub started : Bool → Frame → Turn
started true frame = handles frame
started false frame = dies sigsegv

-- What the action of a signal asks for.
pub data Disposition : Type 0 where
  terminate stop ignore run_handler : Disposition

unfoldable pub disposition : SignalAction → ℕ → Disposition
disposition a signal =
    if signal == sigkill
    then terminate
    else if signal == sigstop || (a.handler == sig_dfl && is_stop_signal signal)
    then stop
    else if a.handler == sig_ign || (a.handler == sig_dfl && default_ignored signal)
    then ignore
    else if a.handler == sig_dfl
    then terminate
    else run_handler

-- The thread that parks, with its sequence, and the frame's size and the stack pointer, are parameters.
module _ (frame_size user_stack thread sequence : ℕ) (write_frame : ℕ → Bool)
    (write_slot : ℕ → Bool) where
  -- The writes to the stack of a handler.
  unfoldable pub write_frames : SignalInfo → SignalAction → ℕ → Option (ℕ × ℕ) → Turn
  write_frames info a old_mask none = dies sigsegv
  write_frames info a old_mask (some (address, slot)) =
      started (write_frame address && write_slot slot) (record {
        info = info;
        old_mask = old_mask;
        address = address;
        return_slot = slot;
        handler = a.handler;
        restorer = a.restorer;
      })

  unfoldable pub handle : SignalManager → SignalInfo → Turn × SignalManager
  handle m info =
      let a = action m info.signal in
      let q = entered m info in
      (
        write_frames info a (unless_none m.suspend_restore_mask m.mask)
            (signal_frame_addresses (handler_stack q a user_stack) frame_size),
        q,
      )

  -- What is done with a signal that was taken.
  unfoldable pub deliver : Disposition → SignalManager → SignalInfo → Turn × SignalManager
  deliver terminate m info = (dies info.signal, m)
  deliver stop m info = (parks, mark_stopped m thread sequence)
  deliver ignore m info = (skips, m)
  deliver run_handler m info = handle m info

  unfoldable pub resumed : Option ℕ × SignalManager → SignalManager
  resumed (none, m) = m
  resumed (some mask, m) = restore_mask m mask

  unfoldable pub turn_of : Option SignalInfo × SignalManager → Turn × SignalManager
  turn_of (none, m) = (idle, resumed (take_suspend_restore_mask m))
  turn_of (some info, m) = deliver (disposition (action m info.signal) info.signal) m info

  -- A turn of the loop of `deliver_pending`.
  unfoldable pub turn : SignalManager → Turn × SignalManager
  turn m = turn_of (take_deliverable m)

  -- The loop goes on behind a signal without effect, and behind a park once the thread is woken, with
  -- the state that the others have left by then: the next of `later`, and where there is none, the
  -- thread stays parked. None is for a run that is out of fuel.
  unfoldable pub proceed :
      (List SignalManager → SignalManager → Option (Turn × SignalManager))
      → List SignalManager
      → Turn × SignalManager
      → Option (Turn × SignalManager)
  proceed next later (skips, m) = next later m
  proceed next [] (parks, m) = some (parks, m)
  proceed next (woken ∷ later) (parks, m) = next later woken
  proceed next later (idle, m) = some (idle, m)
  proceed next later (dies signal, m) = some (dies signal, m)
  proceed next later (handles frame, m) = some (handles frame, m)

  unfoldable pub deliver_loop :
      ℕ → List SignalManager → SignalManager → Option (Turn × SignalManager)
  deliver_loop zero later m = none
  deliver_loop (suc fuel) later m = proceed (deliver_loop fuel) later (turn m)

  -- The hint that there is work spares the loop.
  unfoldable pub deliver_pending :
      ℕ → List SignalManager → SignalManager → Option (Turn × SignalManager)
  deliver_pending fuel later m =
      let r = deliver_loop fuel later m in if m.pending_work then r else some (idle, m)
