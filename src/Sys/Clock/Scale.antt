-- ===== src/Sys/Clock/Scale.antt =====
-- kernel/src/sys/clock.rs: the scale of a clock source exists, and keeps what it promises.
use Prim.Native.Nat.{ℕ, zero, suc, ◌+◌, ◌*◌, ◌/◌, ◌^◌, ◌≤◌, ◌<◌}
use native.Mathlib.Nat.{div-lt_iff_lt-mul, le-div_iff_mul-le}
use roanix.Prelude.{
  ◌≡◌, inl, inr, refl, Bool, true, false, Option, none, some, ltb, if◌then◌else◌, Bool-cases, arith,
}
use roanix.Sys.Clock.{ClockScale, fits, find_shift, ns_multiplier, cycles_multiplier, scale_of, new}

-- What the search for a shift finds.
abbrev Finds : (ℕ → ℕ) → Option (ℕ × ℕ) → Type 0
Finds f none = 0 < 0
Finds f (some r) = (r.0 ≡ f r.1) × (fits r.0 ≡ true) × (r.1 ≤ 48)

if-Finds :
    (f : ℕ → ℕ) (b : Bool) (r : ℕ × ℕ) (o : Option (ℕ × ℕ))
    → (b ≡ true → Finds f (some r))
    → (b ≡ false → Finds f o)
    → Finds f (if b then some r else o)
if-Finds f true r o h k = h refl
if-Finds f false r o h k = k refl

find_shift-Finds_low :
    (f : ℕ → ℕ) (shift : ℕ) → shift ≤ 48 → fits (f 0) ≡ true → Finds f (find_shift f shift)
unfolding find_shift
find_shift-Finds_low f zero le h =
    if-Finds f (fits (f 0)) (f 0, 0) none (λ t. (refl, t, omega arith)) (λ t. ground (arith, t, h))
find_shift-Finds_low f (suc shift) le h =
    if-Finds f (fits (f (suc shift))) (f (suc shift), suc shift) (find_shift f shift)
      (λ t. (refl, t, le)) (λ t. find_shift-Finds_low f shift (omega (arith, le)) h)

find_shift-Finds_high :
    (f : ℕ → ℕ) (shift : ℕ)
    → suc shift ≤ 48
    → fits (f (suc shift)) ≡ true
    → Finds f (find_shift f (suc shift))
unfolding find_shift
find_shift-Finds_high f shift le h =
    if-Finds f (fits (f (suc shift))) (f (suc shift), suc shift) (find_shift f shift)
      (λ t. (refl, t, le)) (λ t. ground (arith, t, h))

-- A multiplier fits where its numerator and its denominator are close enough.
fits-quotient : (a b : ℕ) → 0 < b → b ≤ a → a < 18446744073709551616 * b → fits (a / b) ≡ true
unfolding fits
fits-quotient a b pos low high =
    let one : 1 ≤ a / b = (le-div_iff_mul-le pos).1 (omega (arith, low)) in
    let top : a / b < 18446744073709551616 = (div-lt_iff_lt-mul pos).1 (omega (arith, high)) in
    ground (arith, one, top)

ns-Finds :
    (frequency : ℕ)
    → 0 < frequency
    → frequency < 2 ^ 64
    → Finds (ns_multiplier frequency) (find_shift (ns_multiplier frequency) 48)
unfolding ns_multiplier
ns-Finds frequency pos lt = elim (Bool-cases (ltb frequency 32768)) [
  | inl small ↦ find_shift-Finds_low (ns_multiplier frequency) 48 (omega arith) (
      fits-quotient (1000000000 * 2 ^ 0 + frequency / 2) frequency pos (ground (arith, small))
        (ground (arith, small, pos)))
  | inr large ↦ find_shift-Finds_high (ns_multiplier frequency) 47 (omega arith) (
      fits-quotient (1000000000 * 2 ^ 48 + frequency / 2) frequency pos (omega (arith, lt))
        (ground (arith, large)))
]

cycles-Finds :
    (frequency : ℕ)
    → 0 < frequency
    → frequency < 2 ^ 64
    → Finds (cycles_multiplier frequency) (find_shift (cycles_multiplier frequency) 48)
unfolding cycles_multiplier
cycles-Finds frequency pos lt =
    find_shift-Finds_low (cycles_multiplier frequency) 48 (omega arith) (
      fits-quotient (frequency * 2 ^ 0 + 999999999) 1000000000 (omega arith) (omega (arith, pos))
        (omega (arith, lt)))

-- What `new` promises of a scale: the multipliers are those of its shifts.
pub record IsScale (frequency : ℕ) (s : ClockScale) : Type 0 where
  pub ns_scale : s.ns_mult ≡ ns_multiplier frequency s.ns_shift
  pub cycles_scale : s.cycles_mult ≡ cycles_multiplier frequency s.cycles_shift
  pub ns_fits : fits s.ns_mult ≡ true
  pub cycles_fits : fits s.cycles_mult ≡ true
  pub ns_small : s.ns_shift ≤ 48
  pub cycles_small : s.cycles_shift ≤ 48

scale_of-IsScale :
    (frequency : ℕ) (a b : Option (ℕ × ℕ))
    → Finds (ns_multiplier frequency) a
    → Finds (cycles_multiplier frequency) b
    → (s : ClockScale) × (scale_of a b ≡ some s) × IsScale frequency s
unfolding scale_of
scale_of-IsScale frequency none b h k = elim h [ ]
scale_of-IsScale frequency (some a) none h k = elim k [ ]
scale_of-IsScale frequency (some a) (some b) h k = (
  record { ns_mult = a.0; ns_shift = a.1; cycles_mult = b.0; cycles_shift = b.1 },
  refl,
  record {
    ns_scale = h.0;
    cycles_scale = k.0;
    ns_fits = h.1;
    cycles_fits = k.1;
    ns_small = h.2;
    cycles_small = k.2;
  },
)

-- For every frequency that a 64-bit word holds, but 0, the searches for shifts end with multipliers
-- that fit: no assertion of `new` fails.
pub new-IsScale :
    (frequency : ℕ)
    → 0 < frequency
    → frequency < 2 ^ 64
    → (s : ClockScale) × (new frequency ≡ some s) × IsScale frequency s
unfolding new
new-IsScale frequency pos lt =
    let (s, e, v) =
      scale_of-IsScale frequency (find_shift (ns_multiplier frequency) 48)
        (find_shift (cycles_multiplier frequency) 48) (ns-Finds frequency pos lt)
        (cycles-Finds frequency pos lt) in
    (s, ground (arith, pos, e), v)
