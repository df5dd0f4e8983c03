-- ===== src/Proc/Signal/Deliver/Frames.antt =====
-- kernel/src/proc/signal.rs: the place of a handler's frame, and the mask behind its return.
use Prim.Native.Nat.{ℕ, ◌+◌, ◌%◌, ◌≤◌}
use roanix.Prelude.{◌≡◌, some, arith}
use roanix.Proc.Signal.Deliver.{signal_frame_addresses}

-- Where there is room, the frame of a handler is aligned to 16 bytes, the 128 bytes below the old
-- stack pointer stay clear of it, and the return slot lies right below it, at no address under the
-- lowest one of user space.
pub signal_frame_addresses_lem :
    (stack frame_size address slot : ℕ)
    → signal_frame_addresses stack frame_size ≡ some (address, slot)
    → (address % 16 ≡ 0)
      × (address + frame_size + 128 ≤ stack)
      × (slot + 8 ≡ address)
      × (0x10000 ≤ slot)
unfolding signal_frame_addresses
signal_frame_addresses_lem stack frame_size address slot e = ground (arith, e)
