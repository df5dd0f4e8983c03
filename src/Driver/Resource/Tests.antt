-- ===== src/Driver/Resource/Tests.antt =====
-- kernel/src/driver/core/resource.rs at concrete resources.
use roanix.Prelude.{ℕ, ◌-◌, ◌≤◌, ◌^◌, ◌≡◌, refl, none, [], ◌∷◌, ok}
use roanix.Driver.Resource.{Resource, new, validate, last, push}
use roanix.Driver.Resource.Ranges.{new-last}

abbrev window : ℕ → Resource
window start = record {
  kind = 1;
  flags = 0;
  start = start;
  size = 16;
  bus_start = start;
  name = none;
}

-- The last 16 bytes of the address space.
abbrev top : ℕ
top = 2 ^ 64 - 16

new-top : new 1 0 top 16 ≡ ok (window top)
unfolding new
new-top = refl

new-last_example :
    (validate (window top) ≡ ok tt)
    × ((window top).start ≡ top)
    × ((window top).size ≡ 16)
    × (2 ^ 64 ≤ 2 ^ 64)
    × (last (window top) ≡ none)
new-last_example = new-last 1 0 top 16 (window top) new-top

push-two : push (window 0 ∷ []) (window 16) ≡ ok (1, window 0 ∷ window 16 ∷ [])
unfolding push
push-two = refl
