-- ===== src/Proc/Signal/Calls/Actions.antt =====
-- kernel/src/proc/signal.rs: a change of actions leaves no ignored signal pending.
use Prim.Native.Nat.{ℕ, zero, suc, ◌≤◌}
use roanix.Prelude.{
  ◌≡◌, refl, Bool, true, false, not, ◌&&◌, List, [], ◌∷◌, map, length, get_or, set, ltb, ◌==◌,
  if◌then◌else◌, arith,
}
use roanix.Proc.Signal.{
  SignalAction, SignalInfo, SignalManager, default_action, ignored, retain, set_action,
  reset_action, reset_actions,
}
use roanix.Proc.Signal.Shrinking.{count, count_mono, retain-Shrinks}
use roanix.Proc.Signal.Pending.{IsSignals, Shrinks-IsSignals}

-- What a second test lets through of the elements that pass a first one.
count-retain_mono :
    (p q r : SignalInfo → Bool) (xs : List SignalInfo)
    → ((x : SignalInfo) → p x ≡ true → q x ≡ true → r x ≡ true)
    → count q (retain p xs) ≤ count r xs
unfolding retain
count-retain_mono p q r [] h = omega arith
count-retain_mono p q r (x ∷ xs) h = ground (arith, h x, count-retain_mono p q r xs h)

get_or-set :
    (xs : List SignalAction) (i j : ℕ) (v d : SignalAction)
    → get_or (set xs i v) j d ≡ (if i == j && ltb i (length xs) then v else get_or xs j d)
get_or-set [] i j v d = ground arith
get_or-set (x ∷ xs) zero zero v d = ground arith
get_or-set (x ∷ xs) zero (suc j) v d = ground arith
get_or-set (x ∷ xs) (suc i) zero v d = ground arith
get_or-set (x ∷ xs) (suc i) (suc j) v d = ground (arith, get_or-set xs i j v d)

-- A signal that a change of actions makes ignored is the one whose action is to ignore it.
ignored-set_other :
    (actions : List SignalAction) (signal s : ℕ) (a : SignalAction)
    → (s == signal) ≡ false
    → ignored (set actions signal a) s ≡ true
    → ignored actions s ≡ true
unfolding ignored
ignored-set_other actions signal s a n e =
    ground (arith, n, e, get_or-set actions signal s a default_action)

ignored-set_kept :
    (actions : List SignalAction) (signal s : ℕ) (a : SignalAction)
    → (a.handler == 1) ≡ false
    → ignored (set actions signal a) s ≡ true
    → ignored actions s ≡ true
unfolding ignored
ignored-set_kept actions signal s a n e =
    ground (arith, n, e, get_or-set actions signal s a default_action)

pub set_action-wanted :
    (m : SignalManager) (signal : ℕ) (a : SignalAction)
    → count (λ p. ignored m.actions p.signal) m.pending ≡ 0
    → let q = (set_action m signal a).1 in count (λ p. ignored q.actions p.signal) q.pending ≡ 0
unfolding set_action
set_action-wanted m signal a e =
    let now : SignalInfo → Bool = λ p. ignored (set m.actions signal a) p.signal in
    let before : SignalInfo → Bool = λ p. ignored m.actions p.signal in
    let others : SignalInfo → Bool = λ p. not (p.signal == signal) in
    let left : count now (retain others m.pending) ≤ count before m.pending =
      count-retain_mono others now before m.pending
        (λ x k. ignored-set_other m.actions signal x.signal a (ground (arith, k))) in
    let kept : (a.handler == 1) ≡ false → count now m.pending ≤ count before m.pending =
      λ n. count_mono now before m.pending (λ x. ignored-set_kept m.actions signal x.signal a n) in
    ground (arith, e, left, kept)

get_or-reset :
    (xs : List SignalAction) (i : ℕ)
    → (get_or (map reset_action xs) i default_action).handler
      ≡ (if (get_or xs i default_action).handler == 1 then 1 else 0)
unfolding reset_action
get_or-reset [] i = refl
get_or-reset (x ∷ xs) zero = ground arith
get_or-reset (x ∷ xs) (suc i) = get_or-reset xs i

ignored-reset_actions :
    (actions : List SignalAction) (s : ℕ)
    → ignored (reset_actions actions) s ≡ true
    → ignored actions s ≡ true
unfolding reset_actions ignored
ignored-reset_actions [] s e = e
ignored-reset_actions (a ∷ rest) zero e = e
ignored-reset_actions (a ∷ rest) (suc s) e = ground (arith, e, get_or-reset rest s)

pub reset_actions-wanted :
    (actions : List SignalAction) (pending : List SignalInfo)
    → count (λ p. ignored actions p.signal) pending ≡ 0
    → count (λ p. ignored (reset_actions actions) p.signal) pending ≡ 0
reset_actions-wanted actions pending e = omega (
  arith,
  e,
  count_mono (λ p. ignored (reset_actions actions) p.signal) (λ p. ignored actions p.signal) pending
      (λ x. ignored-reset_actions actions x.signal),
)

-- The queue behind a change of actions, with the actions from before it.
pub set_action-kept :
    (m : SignalManager) (signal : ℕ) (a : SignalAction)
    → IsSignals m
    → IsSignals (record ((set_action m signal a).1) { actions = m.actions })
unfolding set_action
set_action-kept m signal a v =
    Shrinks-IsSignals m _ refl refl
      (λ t. ground (arith, retain-Shrinks (λ p. not (p.signal == signal)) m.pending t)) v
