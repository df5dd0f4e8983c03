-- ===== src/Mem/Reserve.antt =====
-- kernel/src/mem/reserve.rs: which free pages an allocation may take.
use roanix.Prelude.{ℕ, ◌*◌, max, Bool, not, ◌&&◌, ◌||◌, ◌==◌, leb, if◌then◌else◌}

abbrev pub kernel_pages_per_cpu : ℕ
kernel_pages_per_cpu = 5

abbrev pub daemon_pages : ℕ
daemon_pages = 1

pub data Access : Type 0 where
  denied single fill : Access

unfoldable pub access : ℕ → ℕ → Bool → Bool → Access
access free cpus use_reserve daemon =
    if free == 0
    then denied
    else if leb free (kernel_pages_per_cpu * max cpus 1)
    then (if not use_reserve || (leb free daemon_pages && not daemon) then denied else single)
    else fill
