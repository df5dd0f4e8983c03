-- ===== src/Sys/RwLock/Tests.antt =====
-- kernel/src/sys/sync/rwlock.rs: a writer that waits for a reader.
use roanix.Prelude.{◌+◌, ◌<◌, ◌^◌, ◌≡◌, refl, true}
use roanix.Sys.RwLock.{
  RwLock, new, read, drop_read, signal_drained, act, step, with_writer, reads, drops_read, signals,
  acts, lock, goes_on, exclusive, writer,
}
use roanix.Sys.RwLock.Exclusion.{Runs, stays, steps, new-Exclusion, allows, mark}

-- The writer holds its guard, and the event is still signalled.
abbrev written : RwLock
written = record { state = writer; gate = exclusive; drained = true; readers = 0; signalling = 0 }

written-Runs : Runs new written
unfolding new step read drop_read signal_drained act with_writer
written-Runs = steps (reads 0) new _ written refl (
    steps (acts lock) _ _ written refl (
      steps (acts goes_on) _ _ written refl (
        steps (acts goes_on) _ _ written refl (
          steps (acts goes_on) _ _ written refl (
            steps drops_read _ _ written refl (
              steps signals _ _ written refl (
                steps (acts goes_on) _ _ written refl
                  (steps (acts goes_on) _ _ written refl (stays written)))))))))

new-Exclusion_example :
    (writer ≡ 0 + mark exclusive) × (0 < 2 ^ 63) × (allows exclusive 0 true 0 ≡ true)
new-Exclusion_example = new-Exclusion written written-Runs
