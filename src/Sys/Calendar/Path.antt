-- ===== src/Sys/Calendar/Path.antt =====
-- kernel/src/sys/clock.rs: the nodes between a leaf of the tournament and its root.
use Prim.Native.Nat.{ℕ, zero, suc, ◌+◌, ◌*◌, ◌/◌, ◌≤◌, ◌<◌}
use native.Mathlib.Nat.{mul-le-mul_right, mul-le-mul_left}
use roanix.Prelude.{◌≡◌, ◌≢◌, sym, ap, subst, dec_lt, arith}

-- The node `k` levels above another one.
abbrev pub above : ℕ → ℕ → ℕ
above zero x = x
above (suc k) x = above k x / 2

-- How many leaves a node of a level has below it.
abbrev pub leaves : ℕ → ℕ
leaves zero = 1
leaves (suc k) = leaves k + leaves k

-- The nodes of a level: their leaves are among those from 256 to 511.
abbrev pub InLevel : ℕ → ℕ → Type 0
InLevel k n = (256 ≤ n * leaves k) × ((n + 1) * leaves k ≤ 512)

pub InLevel-left : (k n : ℕ) → InLevel (suc k) n → InLevel k (n * 2)
InLevel-left k n h = (omega (arith, h.0), omega (arith, h.1))

pub InLevel-right : (k n : ℕ) → InLevel (suc k) n → InLevel k (n * 2 + 1)
InLevel-right k n h = (omega (arith, h.0), omega (arith, h.1))

pub above-bounds : (k x : ℕ) → (above k x * leaves k ≤ x) × (x < (above k x + 1) * leaves k)
above-bounds zero x = (omega arith, omega arith)
above-bounds (suc k) x =
    let m = above k x in
    let s = leaves k in
    let h = above-bounds k x in
    let low : m / 2 * 2 * s ≤ m * s = mul-le-mul_right s (omega arith) in
    let high : (m + 1) * s ≤ (m / 2 + 1) * 2 * s = mul-le-mul_right s (omega arith) in
    (omega (arith, h.0, low), omega (arith, h.1, high))

pub leaves-double : (j k : ℕ) → j < k → leaves j + leaves j ≤ leaves k
leaves-double j zero h = let no : 0 < 0 = omega (arith, h) in elim no [ ]
leaves-double j (suc k) h = elim (dec_lt j k) [
  | yes lt ↦ omega (arith, leaves-double j k lt)
  | no ge ↦ let e : j ≡ k = omega (arith, ge, h) in omega (arith, ap leaves e)
]

leaves-pos : (k : ℕ) → 1 ≤ leaves k
leaves-pos zero = omega arith
leaves-pos (suc k) = omega (arith, leaves-pos k)

-- A node of one level is not on the path at another level.
pub above-apart : (j k x n : ℕ) → 256 ≤ x → x < 512 → InLevel k n → j ≢ k → n ≢ above j x
above-apart j k x n lo hi h ne e =
    let b = above-bounds j x in
    let b0 : n * leaves j ≤ x = subst (λ m. m * leaves j ≤ x) (sym e) b.0 in
    let b1 : x < (n + 1) * leaves j = subst (λ m. x < (m + 1) * leaves j) (sym e) b.1 in
    elim (dec_lt j k) [
      | yes lt ↦
          let d : (n + 1) * (leaves j + leaves j) ≤ (n + 1) * leaves k =
            mul-le-mul_left (n + 1) (leaves-double j k lt) in
          omega (arith, d, h.1, b1, lo)
      | no ge ↦
          let d : n * (leaves k + leaves k) ≤ n * leaves j =
            mul-le-mul_left n (leaves-double k j (omega (arith, ge, ne))) in
          omega (arith, d, h.0, b0, hi)
    ]

pub InLevel-pos : (k n : ℕ) → InLevel k n → 1 ≤ n
InLevel-pos k zero h = omega (arith, h.0)
InLevel-pos k (suc n) h = omega arith

-- A node below the root is not the root.
pub InLevel-below : (k n : ℕ) → k < 8 → InLevel k n → 2 ≤ n
InLevel-below k zero lt h = omega (arith, h.0)
InLevel-below k (suc zero) lt h = omega (arith, h.0, leaves-double k 8 lt)
InLevel-below k (suc (suc n)) lt h = omega arith
