-- ===== src/Proc/Signal.antt =====
-- kernel/src/proc/signal.rs: the signals of a process, each operation under the lock of its state.
-- What an operation asks of the scheduler is in its result.
pub mod Deliver
pub mod Shrinking
pub mod Pending
pub mod Waiting
pub mod Calls
mod Tests
use Prim.Native.Nat.{bit_and, bit_or}
use roanix.Prelude.{
  ℕ, ◌+◌, ◌-◌, ◌/◌, ◌%◌, ◌^◌, Bool, true, false, not, ◌&&◌, ◌||◌, Option, none, some, List, [], ◌∷◌,
  ◌++◌, map, get_or, set, replicate, is_empty, ltb, ◌==◌, if◌then◌else◌, Result, ok, err,
}

abbrev pub sigkill : ℕ
sigkill = 9

abbrev pub sigcont : ℕ
sigcont = 18

abbrev pub sigstop : ℕ
sigstop = 19

abbrev pub sigrtmin : ℕ
sigrtmin = 35

abbrev pub sig_dfl : ℕ
sig_dfl = 0

abbrev pub sig_ign : ℕ
sig_ign = 1

pub record SignalAction : Type 0 where
  pub handler : ℕ
  pub flags : ℕ
  pub restorer : ℕ
  pub mask : ℕ

-- `SignalAction::DEFAULT`
abbrev pub default_action : SignalAction
default_action = record { handler = 0; flags = 0; restorer = 0; mask = 0 }

pub record SignalInfo : Type 0 where
  pub signal : ℕ
  pub code : ℕ
  pub sender_pid : ℕ
  pub sender_uid : ℕ
  pub synchronous : Bool

pub data SignalWait : Type 0 where
  ready : SignalInfo → SignalWait
  interrupted : SignalWait
  sleep : SignalWait

pub record SignalStack : Type 0 where
  pub pointer : ℕ
  pub size : ℕ

-- The state with the event and the hint that stand beside it.
pub record SignalManager : Type 0 where
  pub actions : List SignalAction
  pub pending : List SignalInfo
  pub mask : ℕ
  pub alt_stack : Option SignalStack
  pub suspend_restore_mask : Option ℕ
  pub stopped : Option (ℕ × ℕ)
  pub pending_work : Bool
  pub event : Bool

-- `mask & signal_bit(signal) != 0`
unfoldable pub has_signal : ℕ → ℕ → Bool
has_signal mask signal = mask / 2 ^ (signal - 1) % 2 == 1

-- `mask & !signal_bit(signal)`
unfoldable pub without_signal : ℕ → ℕ → ℕ
without_signal signal mask = if has_signal mask signal then mask - 2 ^ (signal - 1) else mask

-- `mask & !unblockable_mask()`
unfoldable pub blockable : ℕ → ℕ
blockable mask = without_signal sigstop (without_signal sigkill mask)

unfoldable pub is_stop_signal : ℕ → Bool
is_stop_signal s = s == 19 || s == 20 || s == 21 || s == 22

unfoldable pub default_ignored : ℕ → Bool
default_ignored s = s == 17 || s == 18 || s == 23 || s == 28

unfoldable pub new : SignalManager
new = record {
  actions = replicate 65 default_action;
  pending = [];
  mask = 0;
  alt_stack = none;
  suspend_restore_mask = none;
  stopped = none;
  pending_work = false;
  event = false;
}

unfoldable pub fork_from : SignalManager → SignalManager
fork_from parent = record new {
  actions = parent.actions;
  mask = parent.mask;
  alt_stack = parent.alt_stack;
}

unfoldable pub reset_action : SignalAction → SignalAction
reset_action a = if not (a.handler == sig_ign) then default_action else a

-- The loop over `actions[1..]`.
unfoldable pub reset_actions : List SignalAction → List SignalAction
reset_actions [] = []
reset_actions (a ∷ rest) = a ∷ map reset_action rest

unfoldable pub reset_for_exec : SignalManager → SignalManager
reset_for_exec m = record m {
  actions = reset_actions m.actions;
  alt_stack = none;
  suspend_restore_mask = none;
  stopped = none;
}

unfoldable pub action : SignalManager → ℕ → SignalAction
action m signal = get_or m.actions signal default_action

-- `VecDeque::retain`
unfoldable pub retain : (SignalInfo → Bool) → List SignalInfo → List SignalInfo
retain p [] = []
retain p (x ∷ xs) = if p x then x ∷ retain p xs else retain p xs

unfoldable pub any : (SignalInfo → Bool) → List SignalInfo → Bool
any p [] = false
any p (x ∷ xs) = p x || any p xs

unfoldable pub put_back :
    SignalInfo → Option (SignalInfo × List SignalInfo) → Option (SignalInfo × List SignalInfo)
put_back x none = none
put_back x (some (y, ys)) = some (y, x ∷ ys)

-- `position` and `remove`: the first element that passes, and the others.
unfoldable pub remove_first :
    (SignalInfo → Bool) → List SignalInfo → Option (SignalInfo × List SignalInfo)
remove_first p [] = none
remove_first p (x ∷ xs) =
    let rest = put_back x (remove_first p xs) in if p x then some (x, xs) else rest

unfoldable pub set_action : SignalManager → ℕ → SignalAction → SignalAction × SignalManager
set_action m signal a = (
  action m signal,
  record m {
    actions = set m.actions signal a;
    pending =
        if a.handler == sig_ign
        then retain (λ p. not (p.signal == signal)) m.pending
        else m.pending;
  },
)

unfoldable pub update_mask : SignalManager → ℕ → ℕ → Result (Unit {0}) (ℕ × SignalManager)
update_mask m how mask =
    if how == 0
    then ok (m.mask, record m { mask = blockable (bit_or m.mask mask) })
    else if how == 1
    then ok (m.mask, record m { mask = blockable (m.mask - bit_and m.mask mask) })
    else if how == 2
    then ok (m.mask, record m { mask = blockable mask })
    else err tt

unfoldable pub restore_mask : SignalManager → ℕ → SignalManager
restore_mask m mask = record m { mask = blockable mask }

unfoldable pub pending_mask : List SignalInfo → ℕ → ℕ
pending_mask [] mask = mask
pending_mask (x ∷ xs) mask = pending_mask xs (bit_or mask (2 ^ (x.signal - 1)))

unfoldable pub replace_alt_stack : SignalManager → Option SignalStack → SignalManager
replace_alt_stack m stack = record m { alt_stack = stack }

unfoldable pub begin_suspend : SignalManager → ℕ → SignalManager
begin_suspend m mask = record m {
  suspend_restore_mask = elim (m.suspend_restore_mask) [ none ↦ some m.mask | some old ↦ some old ];
  mask = blockable mask;
  pending_work = true;
}

unfoldable pub take_suspend_restore_mask : SignalManager → Option ℕ × SignalManager
take_suspend_restore_mask m = (
  m.suspend_restore_mask,
  record m {
    suspend_restore_mask = none;
    pending_work = if is_empty m.pending then false else m.pending_work;
  },
)

-- A signal that the mask does not hold back.
unfoldable pub passes : ℕ → SignalInfo → Bool
passes mask p =
    p.synchronous || p.signal == sigkill || p.signal == sigstop || not (has_signal mask p.signal)

unfoldable pub interrupts_suspend : SignalManager → SignalInfo → Bool
interrupts_suspend m p =
    let a = action m p.signal in
    if not p.synchronous
      && not (p.signal == sigkill)
      && not (p.signal == sigstop)
      && has_signal m.mask p.signal
    then false
    else not (a.handler == sig_ign) && not (a.handler == sig_dfl && default_ignored p.signal)

unfoldable pub prepare_interrupt_wait : SignalManager → Bool × SignalManager
prepare_interrupt_wait m =
    if any (interrupts_suspend m) m.pending then (true, m) else (false, record m { event = false })

-- The queue without an element, and the event, which an empty queue resets.
unfoldable pub with_pending : SignalManager → List SignalInfo → SignalManager
with_pending m pending = record m {
  pending = pending;
  event = if is_empty pending then false else m.event;
}

unfoldable pub ready_or_wait :
    SignalManager → Option (SignalInfo × List SignalInfo) → SignalWait × SignalManager
ready_or_wait m (some (info, pending)) = (ready info, with_pending m pending)
ready_or_wait m none =
    if any (passes m.mask) m.pending then (interrupted, m) else (sleep, record m { event = false })

unfoldable pub prepare_signal_wait : SignalManager → ℕ → SignalWait × SignalManager
prepare_signal_wait m waited =
    ready_or_wait m (remove_first (λ p. has_signal waited p.signal) m.pending)

-- The locked part of `enqueue`: what a continued process lets go of, and whether it is ignored or
-- pending already. The thread to wake is in the result.
unfoldable pub ignored : List SignalAction → ℕ → Bool
ignored actions signal =
    (get_or actions signal default_action).handler == sig_ign
    && not (signal == sigkill)
    && not (signal == sigstop)

unfoldable pub purge : ℕ → List SignalInfo → List SignalInfo
purge signal pending =
    if signal == sigcont || signal == sigkill
    then retain (λ p. not (is_stop_signal p.signal)) pending
    else if is_stop_signal signal
    then retain (λ p. not (p.signal == sigcont)) pending
    else pending

unfoldable pub duplicate : ℕ → List SignalInfo → Bool
duplicate signal pending = ltb signal sigrtmin && any (λ p. p.signal == signal) pending

unfoldable pub enqueue : SignalManager → SignalInfo → Option (ℕ × ℕ) × SignalManager
enqueue m info =
    let continues = info.signal == sigcont || info.signal == sigkill in
    let pending = purge info.signal m.pending in
    let q = record m { pending = pending; stopped = if continues then none else m.stopped } in
    (
      if continues then m.stopped else none,
      if not (ignored m.actions info.signal) && not (duplicate info.signal pending)
          then record q { pending = pending ++ (info ∷ []); pending_work = true; event = true }
          else q,
    )

unfoldable pub taken :
    SignalManager → Option (SignalInfo × List SignalInfo) → Option SignalInfo × SignalManager
taken m none = (none, m)
taken m (some (info, pending)) = (some info, with_pending m pending)

unfoldable pub take_deliverable : SignalManager → Option SignalInfo × SignalManager
take_deliverable m = taken m (remove_first (passes m.mask) m.pending)

unfoldable pub matched :
    SignalManager
    → (SignalInfo → Bool)
    → Option (SignalInfo × List SignalInfo)
    → Option Bool × SignalManager
matched m deliver none = (none, m)
matched m deliver (some (info, pending)) =
    if deliver info then (some true, with_pending m pending) else (some false, m)

-- `take_matching_with`: none without a matching signal, or else whether the delivery took it.
unfoldable pub take_matching_with :
    SignalManager → ℕ → (SignalInfo → Bool) → Option Bool × SignalManager
take_matching_with m mask deliver =
    matched m deliver (remove_first (λ p. has_signal mask p.signal) m.pending)

unfoldable pub has_matching : SignalManager → ℕ → Bool
has_matching m mask = any (λ p. has_signal mask p.signal) m.pending

unfoldable pub prepare_matching_wait : SignalManager → ℕ → Bool × SignalManager
prepare_matching_wait m mask =
    if has_matching m mask then (true, m) else (false, record m { event = false })

unfoldable pub mark_stopped : SignalManager → ℕ → ℕ → SignalManager
mark_stopped m thread sequence = record m { stopped = some (thread, sequence) }
