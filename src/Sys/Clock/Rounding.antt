-- ===== src/Sys/Clock/Rounding.antt =====
-- kernel/src/sys/clock.rs: conversions round so that a delay is long enough and time never runs back.
use Prim.Native.Nat.{ℕ, zero, suc, ◌+◌, ◌-◌, ◌*◌, ◌/◌, ◌^◌, ◌≤◌, ◌<◌}
use native.Mathlib.Nat.{
  le-div_iff_mul-le, mul-le-mul_right, mul-le-mul_left, le_of_mul-le-mul_right, mul_assoc,
  mul_right_comm, lt-div-mul-add, div-mul-le_self,
}
use roanix.Prelude.{◌≡◌, ◌⊎◌, arith, u64_max}
use roanix.Sys.Clock.{ClockScale, cycles_multiplier, cycles_to_ns, ns_to_cycles}
use roanix.Sys.Clock.Scale.{IsScale}

pos_pow : (n : ℕ) → 0 < 2 ^ n
pos_pow zero = omega arith
pos_pow (suc n) = omega (arith, pos_pow n)

-- A quotient that is rounded up covers its numerator.
le-ceiling : (a p : ℕ) → 0 < p → a ≤ (a + (p - 1)) / p * p
le-ceiling a p h =
    let e : a + (p - 1) < (a + (p - 1)) / p * p + p = lt-div-mul-add h in omega (arith, e, h)

-- From the multiplier of a frequency to the frequency itself.
covers :
    (ns frequency mult unit cycles : ℕ)
    → 0 < unit
    → frequency * unit ≤ mult * 1000000000
    → ns * mult ≤ cycles * unit
    → ns * frequency ≤ cycles * 1000000000
covers ns frequency mult unit cycles pos f c =
    let a : ns * (frequency * unit) ≤ ns * (mult * 1000000000) = mul-le-mul_left ns f in
    let b : ns * mult * 1000000000 ≤ cycles * unit * 1000000000 = mul-le-mul_right 1000000000 c in
    let d : ns * frequency * unit ≤ cycles * 1000000000 * unit = omega (
      arith,
      a,
      b,
      mul_assoc ns frequency unit,
      mul_assoc ns mult 1000000000,
      mul_right_comm cycles unit 1000000000,
    ) in
    le_of_mul-le-mul_right d pos

-- By a scale of a frequency, a delay in counter cycles is not shorter than the delay in nanoseconds at the frequency of the
-- scale, unless it is the longest that a 64-bit word holds.
pub ns_to_cycles_lem :
    (frequency ns : ℕ) (s : ClockScale)
    → IsScale frequency s
    → (ns_to_cycles s ns ≡ u64_max) ⊎ (ns * frequency ≤ ns_to_cycles s ns * 1000000000)
unfolding ns_to_cycles cycles_multiplier
ns_to_cycles_lem frequency ns s v =
    let unit = 2 ^ s.cycles_shift in
    let cycles = (ns * s.cycles_mult + (unit - 1)) / unit in
    let m : frequency * unit ≤ s.cycles_mult * 1000000000 =
      omega (arith, v.cycles_scale, le-ceiling (frequency * unit) 1000000000 (omega arith)) in
    let c : ns * s.cycles_mult ≤ cycles * unit =
      le-ceiling (ns * s.cycles_mult) unit (pos_pow s.cycles_shift) in
    ground (arith, covers ns frequency s.cycles_mult unit cycles (pos_pow s.cycles_shift) m c)

-- A later count of cycles is not an earlier time.
pub cycles_to_ns_mono : (s : ClockScale) (a b : ℕ) → a ≤ b → cycles_to_ns s a ≤ cycles_to_ns s b
unfolding cycles_to_ns
cycles_to_ns_mono s a b h =
    let unit = 2 ^ s.ns_shift in
    let n : a * s.ns_mult ≤ b * s.ns_mult = mul-le-mul_right s.ns_mult h in
    let l : a * s.ns_mult / unit * unit ≤ a * s.ns_mult = div-mul-le_self (a * s.ns_mult) unit in
    let q : a * s.ns_mult / unit ≤ b * s.ns_mult / unit =
      (le-div_iff_mul-le (pos_pow s.ns_shift)).1 (omega (arith, l, n)) in
    omega (arith, q)
