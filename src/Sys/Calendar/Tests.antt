-- ===== src/Sys/Calendar/Tests.antt =====
-- kernel/src/sys/clock.rs at a concrete calendar.
use Prim.Native.Nat.{ℕ, ◌+◌}
use roanix.Prelude.{◌≡◌, refl, if◌then◌else◌, Option, none, some, List, [], ◌∷◌, arith}
use roanix.Sys.Calendar.{
  Key, at, key, key_le, won, better, climb, leaf_of, heads_with, update, same_key, next_deadline,
  deadline_of, new,
}
use roanix.Sys.Calendar.Earliest.{run, fronts_after, IsEarliest, run_new-IsEarliest}
use roanix.Sys.Calendar.Queue.{CalendarQueue, key_lt}

-- Three buckets get a head, and the earliest of them is emptied.
abbrev changes : List (ℕ × Option Key)
changes =
    (5, some (5000000, 0)) ∷ (3, some (3000000, 1)) ∷ (200, some (200000000, 2)) ∷ (3, none) ∷ []

earliest : next_deadline (run changes new) ≡ some 5000000
unfolding run new update same_key key climb at leaf_of heads_with better won key_le next_deadline
    deadline_of
earliest = refl

run_new-IsEarliest_example :
    IsEarliest (fronts_after changes (λ b. none)) (next_deadline (run changes new))
run_new-IsEarliest_example =
    run_new-IsEarliest changes (omega arith, (omega arith, (omega arith, (omega arith, tt))))

-- A bucket as an ordered list of keys.
unfoldable first_key : List Key → Option Key
first_key [] = none
first_key (k ∷ ks) = some k

unfoldable put_key : Key → List Key → List Key
put_key k [] = k ∷ []
put_key k (x ∷ xs) = let rest = put_key k xs in if key_lt k x then k ∷ x ∷ xs else x ∷ rest

unfoldable drop_key : Key → List Key → List Key
drop_key k [] = []
drop_key k (x ∷ xs) =
    let rest = drop_key k xs in if same_key (some x) (some k) then xs else x ∷ rest

-- How often a bucket holds a key.
unfoldable holds_key : List Key → Key → ℕ
holds_key [] j = 0
holds_key (x ∷ xs) j = (if same_key (some x) (some j) then 1 else 0) + holds_key xs j

-- A calendar with one timer, which is due at 5 ms.
abbrev one_timer : CalendarQueue (List Key)
one_timer = record {
  trees = at 5 (put_key (5000000, 0) []) (λ b. []);
  calendar = update 5 (some (5000000, 0)) new;
  next_order = 1;
}
