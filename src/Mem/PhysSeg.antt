-- ===== src/Mem/PhysSeg.antt =====
-- kernel/src/mem/physseg.rs: physical segments, and where the compact database of frames holds them.
pub mod Slices
use roanix.Prelude.{
  ℕ, zero, suc, ◌+◌, ◌-◌, ◌≤◌, ◌<◌, max, ◌≡◌, refl, inl, inr, Bool, true, false, not, ◌&&◌, ◌||◌,
  Option, none, some, List, [], ◌∷◌, get_elem?, leb, ltb, if◌then◌else◌, checked_add, arith,
  Bool-cases,
}

pub record Segment : Type 0 where
  pub start : ℕ
  pub stop : ℕ
  pub first : ℕ

insert_by_start : Segment → List Segment → List Segment
insert_by_start s [] = s ∷ []
insert_by_start s (t ∷ ts) = if leb s.start t.start then s ∷ t ∷ ts else t ∷ insert_by_start s ts

-- `sort_unstable_by_key`
sort_by_start : List Segment → List Segment
sort_by_start [] = []
sort_by_start (s ∷ ss) = insert_by_start s (sort_by_start ss)

before : Segment → Option (List Segment × ℕ) → Option (List Segment × ℕ)
before s none = none
before s (some (ss, count)) = some (s ∷ ss, count)

-- The loop over the sorted segments; `none` is a failed assertion.
assign : List Segment → ℕ → ℕ → Option (List Segment × ℕ)
unfolding before
assign [] count previous_end = some ([], count)
assign (s ∷ ss) count previous_end =
    if not (leb previous_end s.start && ltb s.start s.stop)
    then none
    else elim (checked_add count (s.stop - s.start)) [
      | none ↦ none
      | some next_count ↦ before (record s { first = count }) (assign ss next_count s.stop)
    ]

-- The segments with their slices, and the number of frames.
unfoldable pub initialize : List Segment → Option (List Segment × ℕ)
unfolding sort_by_start insert_by_start assign
initialize segments = assign (sort_by_start segments) 0 0

-- `partition_point`: how many segments at the front pass.
unfoldable pub partition_point : (Segment → Bool) → List Segment → ℕ
partition_point test [] = 0
partition_point test (s ∷ ss) = if test s then suc (partition_point test ss) else 0

index_in : Option Segment → ℕ → Option ℕ
index_in none pfn = none
index_in (some s) pfn = if ltb pfn s.stop then some (s.first + pfn - s.start) else none

found_before : ℕ → List Segment → ℕ → Option ℕ
unfolding index_in
found_before zero segments pfn = none
found_before (suc index) segments pfn = index_in (get_elem? segments index) pfn

unfoldable pub lookup : List Segment → ℕ → Option ℕ
unfolding found_before partition_point
lookup segments pfn = found_before (partition_point (λ s. leb s.start pfn) segments) segments pfn

at_or_after : Option Segment → ℕ → Option ℕ
at_or_after none pfn = none
at_or_after (some s) pfn = some (max pfn s.start)

unfoldable pub next : List Segment → ℕ → Option ℕ
unfolding at_or_after partition_point
next segments pfn =
    at_or_after (get_elem? segments (partition_point (λ s. leb s.stop pfn) segments)) pfn

-- Segments in order, from frame `low` and index `count` on, with their slices one after another.
abbrev pub IsLaidOut : ℕ → ℕ → List Segment → Type 0
IsLaidOut low count [] = Unit {0}
IsLaidOut low count (s ∷ ss) =
    (low ≤ s.start)
    × (s.start < s.stop)
    × (s.first ≡ count)
    × IsLaidOut s.stop (count + (s.stop - s.start)) ss

-- The end of the slices.
abbrev pub total_frames : ℕ → List Segment → ℕ
total_frames count [] = count
total_frames count (s ∷ ss) = total_frames (count + (s.stop - s.start)) ss
