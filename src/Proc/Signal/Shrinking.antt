-- ===== src/Proc/Signal/Shrinking.antt =====
-- kernel/src/proc/signal.rs: what the queue of pending signals holds after elements left it.
use Prim.Native.Nat.{ℕ, ◌+◌, ◌≤◌}
use roanix.Prelude.{
  ◌≡◌, refl, Bool, true, false, Option, none, some, List, [], ◌∷◌, ◌++◌, if◌then◌else◌, arith,
}
use roanix.Proc.Signal.{SignalInfo, retain, any, put_back, remove_first}

-- How many elements of a queue pass a test.
abbrev pub count : (SignalInfo → Bool) → List SignalInfo → ℕ
count p [] = 0
count p (x ∷ xs) = (if p x then 1 else 0) + count p xs

-- Of no kind has the first queue more elements than the second.
abbrev pub Shrinks : List SignalInfo → List SignalInfo → Type 0
Shrinks xs ys = (q : SignalInfo → Bool) → count q xs ≤ count q ys

pub count-append :
    (q : SignalInfo → Bool) (xs ys : List SignalInfo) → count q (xs ++ ys) ≡ count q xs + count q ys
count-append q [] ys = omega arith
count-append q (x ∷ xs) ys = omega (arith, count-append q xs ys)

pub retain-Shrinks : (p : SignalInfo → Bool) (xs : List SignalInfo) → Shrinks (retain p xs) xs
unfolding retain
retain-Shrinks p [] q = omega arith
retain-Shrinks p (x ∷ xs) q = ground (arith, retain-Shrinks p xs q)

-- What a test keeps out is gone.
pub count-retain :
    (p q : SignalInfo → Bool) (xs : List SignalInfo)
    → ((x : SignalInfo) → q x ≡ true → p x ≡ false)
    → count q (retain p xs) ≡ 0
unfolding retain
count-retain p q [] h = refl
count-retain p q (x ∷ xs) h = ground (arith, h x, count-retain p q xs h)

pub count_mono :
    (p q : SignalInfo → Bool) (xs : List SignalInfo)
    → ((x : SignalInfo) → p x ≡ true → q x ≡ true)
    → count p xs ≤ count q xs
count_mono p q [] h = omega arith
count_mono p q (x ∷ xs) h = ground (arith, h x, count_mono p q xs h)

pub any-count : (p : SignalInfo → Bool) (xs : List SignalInfo) → any p xs ≡ false → count p xs ≡ 0
unfolding any
any-count p [] e = refl
any-count p (x ∷ xs) e = ground (arith, e, any-count p xs)

-- What is left where an element was removed.
abbrev pub Leaves : Option (SignalInfo × List SignalInfo) → List SignalInfo → Type 0
Leaves none ys = Unit {0}
Leaves (some (x, xs)) ys = Shrinks xs ys

put_back-Leaves :
    (x : SignalInfo) (o : Option (SignalInfo × List SignalInfo)) (ys : List SignalInfo)
    → Leaves o ys
    → Leaves (put_back x o) (x ∷ ys)
unfolding put_back
put_back-Leaves x none ys h = tt
put_back-Leaves x (some (y, xs)) ys h = λ q. omega (arith, h q)

pub remove_first-Leaves :
    (p : SignalInfo → Bool) (xs : List SignalInfo) → Leaves (remove_first p xs) xs
unfolding remove_first
remove_first-Leaves p [] = tt
remove_first-Leaves p (x ∷ xs) =
    elim (p x)
      as (λ b. Leaves (if b then some (x, xs) else put_back x (remove_first p xs)) (x ∷ xs)) [
        | true ↦ λ q. omega arith
        | false ↦ put_back-Leaves x (remove_first p xs) xs (remove_first-Leaves p xs)
      ]
