-- ===== src/Proc/Signal/Waiting.antt =====
-- kernel/src/proc/signal.rs: which signal is taken, and waits for signals.
use Prim.Native.Nat.{ℕ, ◌≤◌}
use roanix.Prelude.{
  ◌≡◌, refl, sym, subst, ap, ◌∙◌, Bool, true, false, Option, none, some, List, [], ◌∷◌, ◌++◌,
  if◌then◌else◌, arith, Bool-cases, inl, inr,
}
use roanix.Proc.Signal.{
  SignalAction, SignalInfo, SignalManager, ready, sleep, has_signal, ignored, purge, duplicate,
  passes, remove_first, put_back, any, with_pending, taken, take_deliverable, ready_or_wait,
  prepare_signal_wait, enqueue,
}
use roanix.Proc.Signal.Shrinking.{count, count-append}
use roanix.Proc.Signal.Pending.{is, purge-Shrinks}

-- The first element that passes a test, where there is one, and the others in their order.
abbrev pub IsFirst :
    (SignalInfo → Bool) → List SignalInfo → Option (SignalInfo × List SignalInfo) → Type 0
IsFirst p xs none = count p xs ≡ 0
IsFirst p xs (some (x, rest)) =
    (before : List SignalInfo) × (after : List SignalInfo) × (xs ≡ before ++ x ∷ after)
    × (rest ≡ before ++ after)
    × (count p before ≡ 0)
    × (p x ≡ true)

put_back-IsFirst :
    (p : SignalInfo → Bool) (x : SignalInfo) (xs : List SignalInfo)
    (o : Option (SignalInfo × List SignalInfo))
    → p x ≡ false
    → IsFirst p xs o
    → IsFirst p (x ∷ xs) (put_back x o)
unfolding put_back
put_back-IsFirst p x xs none e h = ground (arith, e, h)
put_back-IsFirst p x xs (some (y, rest)) e (before, after, a, b, c, d) =
    (x ∷ before, after, ap (λ t. x ∷ t) a, ap (λ t. x ∷ t) b, ground (arith, e, c), d)

remove_first-IsFirst :
    (p : SignalInfo → Bool) (xs : List SignalInfo) → IsFirst p xs (remove_first p xs)
unfolding remove_first
remove_first-IsFirst p [] = refl
remove_first-IsFirst p (x ∷ xs) =
    elim (p x)
        as (λ b.
          p x ≡ b
          → IsFirst p (x ∷ xs) (if b then some (x, xs) else put_back x (remove_first p xs))) [
            | true ↦ λ e. ([], xs, refl, refl, refl, e)
            | false ↦ λ e. put_back-IsFirst p x xs (remove_first p xs) e (remove_first-IsFirst p xs)
          ]
      refl

-- What `take_deliverable` returns: nothing where the mask holds every pending signal back, or else
-- the first one that it does not.
abbrev pub IsTaken : SignalManager → Option SignalInfo × SignalManager → Type 0
IsTaken m (none, q) = (count (passes m.mask) m.pending ≡ 0) × (q ≡ m)
IsTaken m (some x, q) =
    (before : List SignalInfo) × (after : List SignalInfo) × (m.pending ≡ before ++ x ∷ after)
    × (q.pending ≡ before ++ after)
    × (count (passes m.mask) before ≡ 0)
    × (passes m.mask x ≡ true)

taken-IsTaken :
    (m : SignalManager) (o : Option (SignalInfo × List SignalInfo))
    → IsFirst (passes m.mask) m.pending o
    → IsTaken m (taken m o)
unfolding taken with_pending
taken-IsTaken m none h = (h, refl)
taken-IsTaken m (some (x, rest)) h = h

-- The signal that is taken is the first of those that the mask lets through, the others stay in their
-- order, and none is taken only where there is none.
pub take_deliverable_lem : (m : SignalManager) → IsTaken m (take_deliverable m)
unfolding take_deliverable
take_deliverable_lem m =
    taken-IsTaken m (remove_first (passes m.mask) m.pending)
      (remove_first-IsFirst (passes m.mask) m.pending)

count-any : (p : SignalInfo → Bool) (xs : List SignalInfo) → count p xs ≡ 0 → any p xs ≡ false
unfolding any
count-any p [] e = refl
count-any p (x ∷ xs) e = ground (arith, e, count-any p xs)

remove_first-last :
    (p : SignalInfo → Bool) (xs : List SignalInfo) (x : SignalInfo)
    → count p xs ≡ 0
    → p x ≡ true
    → remove_first p (xs ++ (x ∷ [])) ≡ some (x, xs)
unfolding remove_first put_back
remove_first-last p [] x e h = ground (arith, h)
remove_first-last p (y ∷ xs) x e h = ground (arith, e, h, remove_first-last p xs x)

-- Elements of one signal are among those that a mask of it matches.
count-matching :
    (waited s : ℕ) (xs : List SignalInfo)
    → has_signal waited s ≡ true
    → count (λ p. has_signal waited p.signal) xs ≡ 0
    → count (is s) xs ≡ 0
count-matching waited s [] h e = refl
count-matching waited s (x ∷ xs) h e = ground (arith, h, e, count-matching waited s xs h)

ready_or_wait-sleep :
    (m : SignalManager) (p : SignalInfo → Bool) (o : Option (SignalInfo × List SignalInfo))
    → IsFirst p m.pending o
    → (ready_or_wait m o).0 ≡ sleep
    → (count p m.pending ≡ 0) × ((ready_or_wait m o).1 ≡ record m { event = false })
unfolding ready_or_wait
ready_or_wait-sleep m p none h e = ground (arith, h, e)
ready_or_wait-sleep m p (some (x, rest)) h e = ground (arith, e)

-- A signal that is neither ignored nor a duplicate is queued.
enqueue-accepted :
    (m : SignalManager) (info : SignalInfo)
    → ignored m.actions info.signal ≡ false
    → duplicate info.signal (purge info.signal m.pending) ≡ false
    → ((enqueue m info).1.event ≡ true)
      × ((enqueue m info).1.pending ≡ purge info.signal m.pending ++ (info ∷ []))
unfolding enqueue
enqueue-accepted m info i d = ground (arith, i, d)

-- `enqueue` of a signal that a thread waits for wakes it and makes it ready.
enqueue-waited :
    (m : SignalManager) (waited : ℕ) (info : SignalInfo)
    → count (λ p. has_signal waited p.signal) m.pending ≡ 0
    → has_signal waited info.signal ≡ true
    → ignored m.actions info.signal ≡ false
    → ((enqueue m info).1.event ≡ true)
      × ((prepare_signal_wait (enqueue m info).1 waited).0 ≡ ready info)
unfolding prepare_signal_wait duplicate ready_or_wait
enqueue-waited m waited info c h i =
    let w : SignalInfo → Bool = λ p. has_signal waited p.signal in
    let xs = purge info.signal m.pending in
    let z : count w xs ≡ 0 = omega (arith, c, purge-Shrinks info.signal m.pending w) in
    let d : any (is info.signal) xs ≡ false =
      count-any (is info.signal) xs (count-matching waited info.signal xs h z) in
    let (e, p) = enqueue-accepted m info i (ground (arith, d)) in
    let q = (enqueue m info).1 in
    (e, ap (λ o. (ready_or_wait q o).0) (ap (remove_first w) p ∙ remove_first-last w xs info z h))

-- Where `prepare_signal_wait` lets a thread sleep, a signal that it waits for and whose action does
-- not ignore it, when it is sent next, signals the event, and is what the thread finds then.
pub prepare_signal_wait-enqueue :
    (m : SignalManager) (waited : ℕ) (info : SignalInfo)
    → (prepare_signal_wait m waited).0 ≡ sleep
    → has_signal waited info.signal ≡ true
    → ignored m.actions info.signal ≡ false
    → let q = (enqueue (prepare_signal_wait m waited).1 info).1 in
      (q.event ≡ true) × ((prepare_signal_wait q waited).0 ≡ ready info)
unfolding prepare_signal_wait
prepare_signal_wait-enqueue m waited info s h i =
    let w : SignalInfo → Bool = λ p. has_signal waited p.signal in
    let (c, e) =
      ready_or_wait-sleep m w (remove_first w m.pending) (remove_first-IsFirst w m.pending) s in
    let r = enqueue-waited (record m { event = false }) waited info c h i in
    subst
      (λ (k : SignalManager).
        ((enqueue k info).1.event ≡ true)
        × ((prepare_signal_wait (enqueue k info).1 waited).0 ≡ ready info))
      (sym e) r

-- A duplicate changes the queue no further.
enqueue-duplicate :
    (m : SignalManager) (info : SignalInfo)
    → duplicate info.signal (purge info.signal m.pending) ≡ true
    → (enqueue m info).1.pending ≡ purge info.signal m.pending
unfolding enqueue
enqueue-duplicate m info d = ground (arith, d)

duplicate-count : (s : ℕ) (xs : List SignalInfo) → duplicate s xs ≡ true → 1 ≤ count (is s) xs
unfolding duplicate
duplicate-count s xs d = ground (arith, d, count-any (is s) xs)

kill-not_ignored : (actions : List SignalAction) (s : ℕ) → s ≡ 9 → ignored actions s ≡ false
unfolding ignored
kill-not_ignored actions s e = ground (arith, e)

pub kill-pends :
    (m : SignalManager) (info : SignalInfo)
    → info.signal ≡ 9
    → 1 ≤ count (is info.signal) (enqueue m info).1.pending
kill-pends m info e =
    let xs = purge info.signal m.pending in
    let i = kill-not_ignored m.actions info.signal e in
    elim (Bool-cases (duplicate info.signal xs)) [
      | inl d ↦ omega (
        arith,
        ap (count (is info.signal)) (enqueue-duplicate m info d),
        duplicate-count info.signal xs d,
      )
      | inr d ↦
          let p = (enqueue-accepted m info i d).1 in
          ground
            (arith, ap (count (is info.signal)) p, count-append (is info.signal) xs (info ∷ []))
    ]

-- SIGKILL wakes the thread that is recorded as stopped, if there is one at that time.
pub enqueue-kill :
    (m : SignalManager) (info : SignalInfo) → info.signal ≡ 9 → (enqueue m info).0 ≡ m.stopped
unfolding enqueue
enqueue-kill m info e = ground (arith, e)
