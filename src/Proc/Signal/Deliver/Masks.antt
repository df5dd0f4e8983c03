-- ===== src/Proc/Signal/Deliver/Masks.antt =====
-- kernel/src/proc/signal.rs: the mask behind a handler and its return.
use Prim.Native.Nat.{ℕ, zero, suc}
use roanix.Prelude.{
  ◌≡◌, refl, subst, ap, ◌∙◌, Bool, true, false, if◌then◌else◌, Option, none, some, List, [], ◌∷◌,
  arith,
}
use roanix.Proc.Signal.{
  SignalAction, SignalInfo, SignalManager, has_signal, without_signal, blockable, restore_mask,
  remove_first, passes, with_pending, taken, take_deliverable, mark_stopped,
}
use roanix.Proc.Signal.Deliver.{
  Frame, Turn, idle, dies, parks, skips, handles, Disposition, terminate, stop, ignore, run_handler,
  started, unless_none, write_frames, handle, deliver, turn_of, turn, proceed, deliver_loop,
  deliver_pending,
}

-- The mask that a process returns to: the one from before a suspension, or the current one.
abbrev pub resting_mask : SignalManager → ℕ
resting_mask m = unless_none m.suspend_restore_mask m.mask

-- A turn saves that mask for the return of a handler, or leaves it.
abbrev Saves : ℕ → Turn × SignalManager → Type 0
Saves r (skips, q) = resting_mask q ≡ r
Saves r (handles f, q) = f.old_mask ≡ r
Saves r (idle, q) = Unit {0}
Saves r (dies s, q) = Unit {0}
Saves r (parks, q) = Unit {0}

-- The states behind the parks have a resting mask.
abbrev pub Rest : ℕ → List SignalManager → Type 0
Rest r [] = Unit {0}
Rest r (woken ∷ later) = (resting_mask woken ≡ r) × Rest r later

abbrev Ends : ℕ → Option (Turn × SignalManager) → Type 0
Ends r none = Unit {0}
Ends r (some t) = Saves r t

taken-resting_mask :
    (m : SignalManager) (o : Option (SignalInfo × List SignalInfo))
    → resting_mask (taken m o).1 ≡ resting_mask m
unfolding taken with_pending
taken-resting_mask m none = refl
taken-resting_mask m (some (x, rest)) = refl

module _ (frame_size user_stack thread sequence : ℕ) (write_frame : ℕ → Bool)
    (write_slot : ℕ → Bool) where
  started-Saves :
      (r : ℕ) (m : SignalManager) (ok : Bool) (frame : Frame)
      → frame.old_mask ≡ r
      → Saves r (started ok frame, m)
  unfolding started
  started-Saves r m true frame e = e
  started-Saves r m false frame e = tt

  write_frames-Saves :
      (r : ℕ) (info : SignalInfo) (a : SignalAction) (old_mask : ℕ) (o : Option (ℕ × ℕ))
      (m : SignalManager)
      → old_mask ≡ r
      → Saves r (
        write_frames frame_size user_stack thread sequence write_frame write_slot info a old_mask o,
        m,
      )
  unfolding write_frames
  write_frames-Saves r info a old_mask none m e = tt
  write_frames-Saves r info a old_mask (some (address, slot)) m e = started-Saves r m _ _ e

  deliver-Saves :
      (r : ℕ) (d : Disposition) (m : SignalManager) (info : SignalInfo)
      → resting_mask m ≡ r
      → Saves r (deliver frame_size user_stack thread sequence write_frame write_slot d m info)
  unfolding deliver handle mark_stopped
  deliver-Saves r terminate m info e = tt
  deliver-Saves r stop m info e = tt
  deliver-Saves r ignore m info e = e
  deliver-Saves r run_handler m info e = write_frames-Saves r info _ _ _ _ e

  turn_of-Saves :
      (r : ℕ) (t : Option SignalInfo × SignalManager)
      → resting_mask t.1 ≡ r
      → Saves r (turn_of frame_size user_stack thread sequence write_frame write_slot t)
  unfolding turn_of
  turn_of-Saves r (none, m) e = tt
  turn_of-Saves r (some info, m) e = deliver-Saves r _ m info e

  proceed-Ends :
      (r : ℕ) (next : List SignalManager → SignalManager → Option (Turn × SignalManager))
      (later : List SignalManager) (t : Turn × SignalManager)
      → Saves r t
      → Rest r later
      → ((rest : List SignalManager) (q : SignalManager)
          → Rest r rest
          → resting_mask q ≡ r
          → Ends r (next rest q))
      → Ends r (proceed frame_size user_stack thread sequence write_frame write_slot next later t)
  unfolding proceed
  proceed-Ends r next later (skips, q) h others f = f later q others h
  proceed-Ends r next [] (parks, q) h others f = tt
  proceed-Ends r next (woken ∷ later) (parks, q) h (e, others) f = f later woken others e
  proceed-Ends r next later (idle, q) h others f = tt
  proceed-Ends r next later (dies s, q) h others f = tt
  proceed-Ends r next later (handles frame, q) h others f = h

  deliver_loop-Ends :
      (r fuel : ℕ) (later : List SignalManager) (m : SignalManager)
      → Rest r later
      → resting_mask m ≡ r
      → Ends r
          (deliver_loop frame_size user_stack thread sequence write_frame write_slot fuel later m)
  unfolding deliver_loop turn take_deliverable
  deliver_loop-Ends r zero later m others e = tt
  deliver_loop-Ends r (suc fuel) later m others e =
      proceed-Ends r
        (deliver_loop frame_size user_stack thread sequence write_frame write_slot fuel) later _
        (turn_of-Saves r (take_deliverable m)
          (taken-resting_mask m (remove_first (passes m.mask) m.pending) ∙ e))
        others (deliver_loop-Ends r fuel)

  -- A mask without SIGKILL and SIGSTOP is restored as it is.
  blockable-blockable :
      (mask : ℕ) → has_signal mask 9 ≡ false → has_signal mask 19 ≡ false → blockable mask ≡ mask
  unfolding blockable without_signal
  blockable-blockable mask k s = ground (arith, k, s)

  deliver_pending-Ends :
      (r fuel : ℕ) (later : List SignalManager) (m : SignalManager)
      → Rest r later
      → resting_mask m ≡ r
      → Ends r (
          deliver_pending frame_size user_stack thread sequence write_frame write_slot fuel later m)
  unfolding deliver_pending
  deliver_pending-Ends r fuel later m others e =
      elim (m.pending_work)
        as (λ b. Ends r (
          if b
          then deliver_loop frame_size user_stack thread sequence write_frame write_slot fuel later
              m
          else some (idle, m))) [ true ↦ deliver_loop-Ends r fuel later m others e | false ↦ tt ]

  -- When the handler that a delivery started returns, the mask is what it was before the delivery, or
  -- before the suspension that the signal ended, if that mask holds back neither SIGKILL nor SIGSTOP,
  -- and if it is still that mask whenever the thread is woken from a park.
  pub restore_mask-deliver_pending :
      (fuel : ℕ) (later : List SignalManager) (m q : SignalManager) (frame : Frame)
      → deliver_pending frame_size user_stack thread sequence write_frame write_slot fuel later m
        ≡ some (handles frame, q)
      → Rest (resting_mask m) later
      → has_signal (resting_mask m) 9 ≡ false
      → has_signal (resting_mask m) 19 ≡ false
      → (restore_mask q frame.old_mask).mask ≡ resting_mask m
  unfolding restore_mask
  restore_mask-deliver_pending fuel later m q frame e others k s =
      let h =
        subst (Ends (resting_mask m)) e
          (deliver_pending-Ends (resting_mask m) fuel later m others refl) in
      ap blockable h ∙ blockable-blockable (resting_mask m) k s
