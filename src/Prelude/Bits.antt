-- ===== src/Prelude/Bits.antt =====
-- The lengths of binary numbers, as Rust's `leading_zeros` and `is_power_of_two` tell them.
use Prim.Native.Nat.{ℕ, zero, suc, ◌-◌, ◌/◌, ◌*◌, ◌^◌}
use mathlib.Core.Bool.{Bool}
use roanix.Prelude.Tests.{◌==◌, if◌then◌else◌}

-- How many binary digits `n` has, up to `fuel`.
pub bit_length : ℕ → ℕ → ℕ
bit_length zero n = 0
bit_length (suc fuel) n = if n == 0 then 0 else suc (bit_length fuel (n / 2))

-- `u64::leading_zeros`
unfoldable pub leading_zeros : ℕ → ℕ
unfolding bit_length
leading_zeros n = 64 - bit_length 64 n

-- `u64::is_power_of_two`
unfoldable pub is_power_of_two : ℕ → Bool
unfolding bit_length
is_power_of_two n = n == 2 ^ (bit_length 64 n - 1)

-- `n & !(align - 1)` for a power of two `align`
abbrev pub mask_down : ℕ → ℕ → ℕ
mask_down n align = n / align * align
