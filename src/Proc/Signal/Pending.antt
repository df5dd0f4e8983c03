-- ===== src/Proc/Signal/Pending.antt =====
-- kernel/src/proc/signal.rs: what holds of the pending signals and the mask of a process.
use Prim.Native.Nat.{ℕ, ◌≤◌, ◌<◌}
use roanix.Prelude.{
  ◌≡◌, ◌⊎◌, refl, ap, ◌∙◌, Bool, true, false, not, ◌||◌, Option, none, some, List, [], ◌∷◌, ◌++◌,
  ◌==◌, if◌then◌else◌, arith,
}
use roanix.Proc.Signal.{
  SignalAction, SignalInfo, SignalManager, sigkill, sigcont, has_signal, is_stop_signal, ignored,
  purge, duplicate, enqueue, with_pending, taken, matched, ready_or_wait,
}
use roanix.Proc.Signal.Shrinking.{
  count, Shrinks, count-append, retain-Shrinks, count-retain, any-count, Leaves,
}

abbrev pub is : ℕ → SignalInfo → Bool
is s p = p.signal == s

abbrev pub stops : SignalInfo → Bool
stops p = is_stop_signal p.signal

-- A standard signal pends once, none that stops the process beside one that continues it, none that
-- is ignored, and the mask holds back neither SIGKILL nor SIGSTOP.
pub record IsSignals (m : SignalManager) : Type 0 where
  pub once : (s : ℕ) → s < 35 → count (is s) m.pending ≤ 1
  pub apart : (count (is 18) m.pending ≡ 0) ⊎ (count stops m.pending ≡ 0)
  pub wanted : count (λ p. ignored m.actions p.signal) m.pending ≡ 0
  pub kill_open : has_signal m.mask 9 ≡ false
  pub stop_open : has_signal m.mask 19 ≡ false

-- A state with fewer pending signals and the same actions and mask.
pub Shrinks-IsSignals :
    (m q : SignalManager)
    → q.actions ≡ m.actions
    → q.mask ≡ m.mask
    → Shrinks q.pending m.pending
    → IsSignals m
    → IsSignals q
Shrinks-IsSignals m q a k h v = record {
  once = λ s lt. omega (arith, h (is s), v.once s lt);
  apart = ground (arith, v.apart, h (is 18), h stops);
  wanted = omega (
    arith,
    v.wanted,
    h (λ p. ignored m.actions p.signal),
    ap (λ (r : List SignalAction). count (λ p. ignored r p.signal) q.pending) a,
  );
  kill_open = ap (λ x. has_signal x 9) k ∙ v.kill_open;
  stop_open = ap (λ x. has_signal x 19) k ∙ v.stop_open;
}

pub purge-Shrinks : (s : ℕ) (xs : List SignalInfo) → Shrinks (purge s xs) xs
unfolding purge
purge-Shrinks s xs q = ground (
  arith,
  retain-Shrinks (λ p. not (is_stop_signal p.signal)) xs q,
  retain-Shrinks (λ p. not (p.signal == sigcont)) xs q,
)

purge-apart :
    (s : ℕ) (xs : List SignalInfo)
    → (is_stop_signal s ≡ true → count (is 18) (purge s xs) ≡ 0)
      × ((s == 18) ≡ true → count stops (purge s xs) ≡ 0)
unfolding purge is_stop_signal
purge-apart s xs = ground (
  arith,
  count-retain (λ p. not (is_stop_signal p.signal)) stops xs (λ x e. ground (arith, e)),
  count-retain (λ p. not (p.signal == 18)) (is 18) xs (λ x e. ground (arith, e)),
)

-- The queue behind `enqueue`, where the signal is neither ignored nor a duplicate.
enqueued :
    (m : SignalManager) (info : SignalInfo)
    → ignored m.actions info.signal ≡ false
    → duplicate info.signal (purge info.signal m.pending) ≡ false
    → IsSignals m
    → IsSignals (record m { pending = purge info.signal m.pending ++ (info ∷ []) })
unfolding duplicate is_stop_signal
enqueued m info i d v =
    let xs = purge info.signal m.pending in
    let new = info ∷ [] in
    let sh = purge-Shrinks info.signal m.pending in
    record {
      once = λ s lt. ground (
        arith,
        v.once s lt,
        sh (is s),
        count-append (is s) xs new,
        any-count (is info.signal) xs,
        d,
        lt,
      );
      apart = ground (
        arith,
        v.apart,
        sh (is 18),
        sh stops,
        count-append (is 18) xs new,
        count-append stops xs new,
        purge-apart info.signal m.pending,
      );
      wanted = ground (
        arith,
        v.wanted,
        sh (λ p. ignored m.actions p.signal),
        count-append (λ p. ignored m.actions p.signal) xs new,
        i,
      );
      kill_open = v.kill_open;
      stop_open = v.stop_open;
    }

accepted :
    (m q : SignalManager) (info : SignalInfo)
    → IsSignals m
    → q.actions ≡ m.actions
    → q.mask ≡ m.mask
    → q.pending ≡ purge info.signal m.pending ++ (info ∷ [])
    → ignored m.actions info.signal ≡ false
    → duplicate info.signal (purge info.signal m.pending) ≡ false
    → IsSignals q
accepted m q info v a k e i d =
    Shrinks-IsSignals (record m { pending = purge info.signal m.pending ++ (info ∷ []) }) q a k
      (λ t. omega (arith, ap (count t) e)) (enqueued m info i d v)

-- `enqueue` keeps the invariant.
pub enqueue-IsSignals :
    (m : SignalManager) (info : SignalInfo) → IsSignals m → IsSignals (enqueue m info).1
unfolding enqueue
enqueue-IsSignals m info v =
    let xs = purge info.signal m.pending in
    let stopped = if info.signal == sigcont || info.signal == sigkill then none else m.stopped in
    let q = record m { pending = xs; stopped = stopped } in
    let r = record q { pending = xs ++ (info ∷ []); pending_work = true; event = true } in
    ground (
      arith,
      Shrinks-IsSignals m q refl refl (purge-Shrinks info.signal m.pending) v,
      accepted m r info v refl refl refl,
    )

-- What takes an element from the queue keeps it.
pub with_pending-IsSignals :
    (m : SignalManager) (xs : List SignalInfo)
    → Shrinks xs m.pending
    → IsSignals m
    → IsSignals (with_pending m xs)
unfolding with_pending
with_pending-IsSignals m xs h v = Shrinks-IsSignals m _ refl refl h v

pub taken-IsSignals :
    (m : SignalManager) (o : Option (SignalInfo × List SignalInfo))
    → Leaves o m.pending
    → IsSignals m
    → IsSignals (taken m o).1
unfolding taken
taken-IsSignals m none h v = v
taken-IsSignals m (some (info, xs)) h v = with_pending-IsSignals m xs h v

pub ready_or_wait-IsSignals :
    (m : SignalManager) (o : Option (SignalInfo × List SignalInfo))
    → Leaves o m.pending
    → IsSignals m
    → IsSignals (ready_or_wait m o).1
unfolding ready_or_wait
ready_or_wait-IsSignals m none h v =
    ground
      (arith, v, Shrinks-IsSignals m (record m { event = false }) refl refl (λ q. omega arith) v)
ready_or_wait-IsSignals m (some (info, xs)) h v = with_pending-IsSignals m xs h v

pub matched-IsSignals :
    (m : SignalManager) (deliver : SignalInfo → Bool) (o : Option (SignalInfo × List SignalInfo))
    → Leaves o m.pending
    → IsSignals m
    → IsSignals (matched m deliver o).1
unfolding matched
matched-IsSignals m deliver none h v = v
matched-IsSignals m deliver (some (info, xs)) h v =
    ground (arith, v, with_pending-IsSignals m xs h v)
