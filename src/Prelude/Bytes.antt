-- ===== src/Prelude/Bytes.antt =====
-- Little-endian words in memory (`to_ne_bytes` and `from_ne_bytes`).
use Prim.Native.Nat.{ℕ, zero, suc, ◌+◌, ◌*◌, ◌/◌, ◌%◌, ◌^◌, ◌<◌}
use mathlib.Core.Path.{◌≡◌}
use mathlib.Core.List.{List, [], ◌∷◌}
use native.Mathlib.Omega.{arith}

unfoldable pub to_bytes : ℕ → ℕ → List ℕ
to_bytes zero word = []
to_bytes (suc n) word = word % 256 ∷ to_bytes n (word / 256)

unfoldable pub from_bytes : List ℕ → ℕ
from_bytes [] = 0
from_bytes (b ∷ bytes) = b + 256 * from_bytes bytes

pub from-to_bytes : (n word : ℕ) → word < 256 ^ n → from_bytes (to_bytes n word) ≡ word
unfolding from_bytes to_bytes
from-to_bytes zero word h = omega (arith, h)
from-to_bytes (suc n) word h =
    let e : from_bytes (to_bytes n (word / 256)) ≡ word / 256 =
      from-to_bytes n (word / 256) (omega (arith, h)) in
    rw e (omega arith)
