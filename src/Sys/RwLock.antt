-- ===== src/Sys/RwLock.antt =====
-- kernel/src/sys/sync/rwlock.rs: the reader/writer lock, as the atomic actions of its callers on
-- the state word, the writer mutex (the gate) and the event `drained`.
pub mod Exclusion
mod Tests
use roanix.Prelude.{
  ℕ, zero, suc, ◌+◌, ◌-◌, ◌^◌, Bool, true, false, not, ◌&&◌, ◌||◌, Option, none, some, List, [],
  ◌∷◌, ltb, leb, ◌==◌, if◌then◌else◌,
}

-- `WRITER`: the top bit of the word.
abbrev pub writer : ℕ
writer = 2 ^ 63

-- `state & WRITER != 0`
abbrev pub has_writer : ℕ → Bool
has_writer state = leb writer state

-- What the holder of the writer mutex is about to do. A reader holds it as `passing`; the caller
-- of `try_write` as `trying`; the caller of `write` goes from `locked` to `exclusive`.
pub data Gate : Type 0 where
  unlocked passing trying locked announcing draining waiting exclusive leaving : Gate

-- The lock's words, how many read guards there are, and how many readers have dropped theirs as the
-- last ones ahead of a writer but have not signalled `drained` yet.
pub record RwLock : Type 0 where
  pub state : ℕ
  pub gate : Gate
  pub drained : Bool
  pub readers : ℕ
  pub signalling : ℕ

unfoldable pub new : RwLock
new = record { state = 0; gate = unlocked; drained = false; readers = 0; signalling = 0 }

-- The rounds of `read` with the word that it has loaded last; `none` is a failed exchange, a wait
-- at the gate, or the assertion on the number of readers.
unfoldable pub read : ℕ → RwLock → Option RwLock
read loaded l =
    if has_writer loaded || not (ltb loaded (writer - 1))
    then none
    else if l.state == loaded
    then some (record l { state = loaded + 1; readers = suc l.readers })
    else none

-- `Drop` of a read guard, which there has to be: its `fetch_sub`. The last reader ahead of a writer
-- has `signal_drained` to do next.
unfoldable pub drop_read : RwLock → Option RwLock
drop_read l =
    if l.readers == 0
    then none
    else some (record l {
      state = l.state - 1;
      readers = l.readers - 1;
      signalling = if l.state == writer + 1 then suc l.signalling else l.signalling;
    })

-- `drained.signal()` by a reader that has it to do.
unfoldable pub signal_drained : RwLock → Option RwLock
signal_drained l =
    if l.signalling == 0
    then none
    else some (record l { drained = true; signalling = l.signalling - 1 })

-- `fetch_or(WRITER)`
unfoldable pub with_writer : ℕ → ℕ
with_writer state = if has_writer state then state else state + writer

-- The next action of a caller who waits for the gate or holds it. Where interrupts are off, a writer
-- spins instead of waiting for the event.
pub data Action : Type 0 where
  pass try_lock lock : Action
  goes_on spins : Action

-- `none` is an action that the gate does not allow. The last clauses are the rest of `write`, of
-- `try_write` and of `Drop` for its guard, an atomic access each.
unfoldable pub act : Action → RwLock → Gate → Option RwLock
act pass l unlocked = some (record l { gate = passing })
act try_lock l unlocked = some (record l { gate = trying })
act lock l unlocked = some (record l { gate = locked })
act goes_on l passing = some (record l { gate = unlocked })
act goes_on l trying =
    if l.state == 0
    then some (record l { state = writer; gate = exclusive })
    else some (record l { gate = unlocked })
act goes_on l locked = some (record l { drained = false; gate = announcing })
act goes_on l announcing = some (record l { state = with_writer l.state; gate = draining })
act goes_on l draining =
    if l.state == writer
    then some (record l { gate = exclusive })
    else some (record l { gate = waiting })
act goes_on l waiting = if l.drained then some (record l { gate = draining }) else none
act spins l waiting = some (record l { gate = draining })
act goes_on l exclusive = some (record l { state = 0; gate = leaving })
act goes_on l leaving = some (record l { gate = unlocked })
act _ l _ = none

-- An atomic step of any caller.
pub data Step : Type 0 where
  reads : ℕ → Step
  drops_read signals : Step
  acts : Action → Step

unfoldable pub step : Step → RwLock → Option RwLock
step (reads loaded) l = read loaded l
step drops_read l = drop_read l
step signals l = signal_drained l
step (acts a) l = act a l l.gate
