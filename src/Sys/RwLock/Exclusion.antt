-- ===== src/Sys/RwLock/Exclusion.antt =====
-- The guards of kernel/src/sys/sync/rwlock.rs exclude each other.
use mathlib.Core.Option.{some-injective}
use roanix.Prelude.{
  subst, Bool-cases, ap, ◌∙◌, ℕ, suc, ◌+◌, ◌-◌, ◌<◌, ◌^◌, ◌≡◌, refl, Bool, true, not, ◌||◌, none,
  some, ltb, ◌==◌, if◌then◌else◌, arith, inl, inr,
}
use roanix.Sys.RwLock.{
  RwLock, new, read, drop_read, signal_drained, with_writer, has_writer, Action, pass, try_lock,
  lock, goes_on, spins, act, Step, reads, drops_read, signals, acts, step, writer, Gate, unlocked,
  passing, trying, locked, announcing, draining, waiting, exclusive, leaving,
}

-- What the state word holds besides the number of readers.
unfoldable pub mark : Gate → ℕ
mark draining = 2 ^ 63
mark waiting = 2 ^ 63
mark exclusive = 2 ^ 63
mark _ = 0

-- Whether a gate allows a number of readers, a state of the event and a number of signals to come.
unfoldable pub allows : Gate → ℕ → Bool → ℕ → Bool
allows exclusive readers drained signalling = readers == 0
allows waiting readers drained signalling = not (readers == 0) || drained || not (signalling == 0)
allows _ readers drained signalling = true

abbrev pub IsLock : RwLock → Type 0
IsLock l =
    (l.state ≡ l.readers + mark l.gate)
    × (l.readers < 2 ^ 63)
    × (allows l.gate l.readers l.drained l.signalling ≡ true)

abbrev at : ℕ → Gate → Bool → ℕ → ℕ → RwLock
at state gate drained readers signalling = record {
  state = state;
  gate = gate;
  drained = drained;
  readers = readers;
  signalling = signalling;
}

found : (l m : RwLock) → some l ≡ some m → IsLock l → IsLock m
found l m e v = subst IsLock (some-injective l m e) v

act-IsLock :
    (a : Action) (g : Gate) (s : ℕ) (d : Bool) (n k : ℕ) (m : RwLock)
    → IsLock (at s g d n k)
    → act a (at s g d n k) g ≡ some m
    → IsLock m
unfolding act mark allows with_writer
act-IsLock pass unlocked s d n k m (w, r, b) h = found _ m h (w, r, refl)
act-IsLock try_lock unlocked s d n k m (w, r, b) h = found _ m h (w, r, refl)
act-IsLock lock unlocked s d n k m (w, r, b) h = found _ m h (w, r, refl)
act-IsLock goes_on passing s d n k m (w, r, b) h = found _ m h (w, r, refl)
act-IsLock goes_on trying s d n k m (w, r, b) h = elim (Bool-cases (s == 0)) [
  | inl e ↦
      let z : n ≡ 0 = ground arith in
      found (at writer exclusive d n k) m (rw e at h) (omega arith, r, rw z refl)
  | inr e ↦ found (at s unlocked d n k) m (rw e at h) (w, r, refl)
]
act-IsLock goes_on locked s d n k m (w, r, b) h = found _ m h (w, r, refl)
act-IsLock goes_on announcing s d n k m (w, r, b) h = found _ m h (ground arith, r, refl)
act-IsLock goes_on draining s d n k m (w, r, b) h = elim (Bool-cases (s == writer)) [
  | inl e ↦
      let z : n ≡ 0 = ground arith in found (at s exclusive d n k) m (rw e at h) (w, r, rw z refl)
  | inr e ↦ found (at s waiting d n k) m (rw e at h) (w, r, ground arith)
]
act-IsLock goes_on waiting s true n k m (w, r, b) h = found _ m h (w, r, refl)
act-IsLock spins waiting s d n k m (w, r, b) h = found _ m h (w, r, refl)
act-IsLock goes_on exclusive s d n k m (w, r, b) h = found _ m h (ground arith, r, refl)
act-IsLock goes_on leaving s d n k m (w, r, b) h = found _ m h (w, r, refl)
act-IsLock _ _ s d n k m v h = cc

-- Below `WRITER`, the word says that no writer waits or holds the lock.
no_writer :
    (g : Gate) (s n k w : ℕ) (d : Bool)
    → s ≡ n + mark g
    → s < 2 ^ 63
    → (mark g ≡ 0) × (allows g k d w ≡ true)
unfolding mark allows
no_writer draining s n k w d e h = let no : 0 < 0 = omega arith in elim no [ ]
no_writer waiting s n k w d e h = let no : 0 < 0 = omega arith in elim no [ ]
no_writer exclusive s n k w d e h = let no : 0 < 0 = omega arith in elim no [ ]
no_writer unlocked s n k w d e h = (refl, refl)
no_writer passing s n k w d e h = (refl, refl)
no_writer trying s n k w d e h = (refl, refl)
no_writer locked s n k w d e h = (refl, refl)
no_writer announcing s n k w d e h = (refl, refl)
no_writer leaving s n k w d e h = (refl, refl)

read-some :
    (loaded : ℕ) (l m : RwLock)
    → read loaded l ≡ some m
    → (l.state < 2 ^ 63 - 1) × (record l { state = l.state + 1; readers = suc l.readers } ≡ m)
unfolding read
read-some loaded l m h = elim (Bool-cases (has_writer loaded || not (ltb loaded (writer - 1)))) [
  | inl e ↦ let no : none ≡ some m = rw e at h in cc
  | inr e ↦ elim (Bool-cases (l.state == loaded)) [
    | inr f ↦ let no : none ≡ some m = rw (e, f) at h in cc
    | inl f ↦
        let q : l.state ≡ loaded = ground arith in
        (
          ground arith,
          ap (λ n. record l { state = n + 1; readers = suc l.readers }) q
              ∙ some-injective _ m (rw (e, f) at h),
        )
  ]
]

read-IsLock : (loaded : ℕ) (l m : RwLock) → IsLock l → read loaded l ≡ some m → IsLock m
read-IsLock loaded l m (w, r, b) h =
    let (below, e) = read-some loaded l m h in
    let (z, ok) =
      no_writer l.gate l.state l.readers (suc l.readers) l.signalling l.drained w (omega arith) in
    subst IsLock e (omega (arith, z), omega (arith, z), ok)

-- The last reader to leave ahead of a writer is about to signal the event.
allows-drop :
    (g : Gate) (s n k : ℕ) (d : Bool)
    → s ≡ n + mark g
    → allows g n d k ≡ true
    → 0 < n
    → allows g (n - 1) d (if s == writer + 1 then suc k else k) ≡ true
unfolding allows mark
allows-drop exclusive s n k d w b h = ground arith
allows-drop waiting s n k d w b h = ground arith
allows-drop draining s n k d w b h = refl
allows-drop unlocked s n k d w b h = refl
allows-drop passing s n k d w b h = refl
allows-drop trying s n k d w b h = refl
allows-drop locked s n k d w b h = refl
allows-drop announcing s n k d w b h = refl
allows-drop leaving s n k d w b h = refl

drop_read-IsLock : (l m : RwLock) → IsLock l → drop_read l ≡ some m → IsLock m
unfolding drop_read
drop_read-IsLock l m (w, r, b) h = elim (Bool-cases (l.readers == 0)) [
  | inl e ↦ let no : none ≡ some m = rw e at h in cc
  | inr e ↦
      let some_readers : 0 < l.readers = ground arith in
      found _ m (rw e at h) (
        omega arith,
        omega arith,
        allows-drop l.gate l.state l.readers l.signalling l.drained w b some_readers,
      )
]

-- A signal is never too many.
allows-signal : (g : Gate) (n k j : ℕ) (d : Bool) → allows g n d k ≡ true → allows g n true j ≡ true
unfolding allows
allows-signal exclusive n k j d b = b
allows-signal waiting n k j d b = ground arith
allows-signal draining n k j d b = refl
allows-signal unlocked n k j d b = refl
allows-signal passing n k j d b = refl
allows-signal trying n k j d b = refl
allows-signal locked n k j d b = refl
allows-signal announcing n k j d b = refl
allows-signal leaving n k j d b = refl

signal_drained-IsLock : (l m : RwLock) → IsLock l → signal_drained l ≡ some m → IsLock m
unfolding signal_drained
signal_drained-IsLock l m (w, r, b) h = elim (Bool-cases (l.signalling == 0)) [
  | inl e ↦ let no : none ≡ some m = rw e at h in cc
  | inr e ↦
      found _ m (rw e at h)
        (w, r, allows-signal l.gate l.readers l.signalling (l.signalling - 1) l.drained b)
]

Step-IsLock : (s : Step) (l m : RwLock) → IsLock l → step s l ≡ some m → IsLock m
unfolding step
Step-IsLock (reads loaded) l m v h = read-IsLock loaded l m v h
Step-IsLock drops_read l m v h = drop_read-IsLock l m v h
Step-IsLock signals l m v h = signal_drained-IsLock l m v h
Step-IsLock (acts a) l m v h = act-IsLock a l.gate l.state l.drained l.readers l.signalling m v h

-- Any interleaving of atomic steps of readers and writers.
pub data Runs : RwLock → RwLock → Type 0 where
  stays : (l : RwLock) → Runs l l
  steps : (s : Step) (l m n : RwLock) → step s l ≡ some m → Runs m n → Runs l n

Runs-IsLock : (l m : RwLock) → Runs l m → IsLock l → IsLock m
Runs-IsLock _ _ (stays l) v = v
Runs-IsLock _ _ (steps s l m n h rest) v = Runs-IsLock m n rest (Step-IsLock s l m v h)

-- From a new lock, whatever atomic accesses readers and writers make in whatever order: while a
-- writer holds its guard there is no reader's guard, the state word is the number of readers with
-- the top bit for a writer that has announced itself, and for a writer that waits while all readers
-- have left, the event is signalled or a reader is just about to signal it.
pub new-Exclusion : (l : RwLock) → Runs new l → IsLock l
unfolding new mark allows
new-Exclusion l runs = Runs-IsLock new l runs (refl, omega arith, refl)
