-- ===== src/Driver/Property/Sorted.antt =====
-- The order of the entries that `PropertyBuilder::build` of kernel/src/driver/core/property.rs makes.
use roanix.Prelude.{◌≡◌, refl, true, false, [], ◌∷◌, arith}
use roanix.Driver.Property.{Str, PropValue, Entries, str_le, insert_by_name, build}

total : (s t : Str) → str_le s t ≡ false → str_le t s ≡ true
unfolding str_le
total [] t e = cc
total (x ∷ s) [] e = refl
total (x ∷ s) (y ∷ t) e = ground (arith, total s t)

-- Each name is no greater than the next one.
abbrev pub Sorted : Entries → Type 0
Sorted [] = Unit {0}
Sorted (e ∷ []) = Unit {0}
Sorted (e ∷ f ∷ es) = (str_le e.0 f.0 ≡ true) × Sorted (f ∷ es)

insert-Sorted : (e : Str × PropValue) (es : Entries) → Sorted es → Sorted (insert_by_name e es)
unfolding insert_by_name
insert-Sorted e [] h = tt
insert-Sorted e (f ∷ []) h = ground (arith, total e.0 f.0)
insert-Sorted e (f ∷ g ∷ es) (h, hs) = ground (arith, total e.0 f.0, insert-Sorted e (g ∷ es) hs)

-- The entries of published properties are in the order of their names, as the binary search of
-- `get` needs them.
pub build-Sorted : (es : Entries) → Sorted (build es)
unfolding build
build-Sorted [] = tt
build-Sorted (e ∷ es) = insert-Sorted e (build es) (build-Sorted es)
