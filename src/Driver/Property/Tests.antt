-- ===== src/Driver/Property/Tests.antt =====
-- kernel/src/driver/core/property.rs at concrete entries.
use roanix.Prelude.{◌≡◌, refl, [], ◌∷◌, arith, ok}
use roanix.Driver.Property.{Str, u32, empty, Entries, lookup, set, build, get}
use roanix.Driver.Property.Edits.{IsBuilder, sets, apply, edited, get-apply}

-- `reg` and `b`
abbrev reg : Str
reg = 114 ∷ 101 ∷ 103 ∷ []

abbrev b : Str
b = 98 ∷ []

abbrev before : Entries
before = (reg, u32 7) ∷ []

abbrev after : Entries
after = (reg, u32 7) ∷ (b, empty) ∷ []

before-IsBuilder : IsBuilder before
unfolding lookup
before-IsBuilder = record { unique = (refl, tt); bounded = omega arith }

apply-before : apply (sets b empty) before ≡ ok after
unfolding apply set lookup
apply-before = refl

get-apply_example :
    IsBuilder after × (get (build after) reg ≡ edited (sets b empty) (get (build before)) reg)
get-apply_example = get-apply (sets b empty) before after reg before-IsBuilder apply-before
