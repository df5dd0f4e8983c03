-- ===== src/Mem/Vmem/Tests.antt =====
-- kernel/src/mem/vmem.rs at concrete arenas, whose tree is an ordered list.
use roanix.Prelude.{
  ℕ, ◌≤◌, ◌≡◌, refl, Bool, true, false, some, List, [], ◌∷◌, set, replicate, arith,
}
use roanix.Prelude.Outcomes.{done}
use roanix.Prelude.Bits.{leading_zeros, is_power_of_two}
use roanix.Mem.Index.{OrderedTree, publish}
use roanix.Mem.Index.ListTree.{list_tree}
use roanix.Mem.Vmem.Arena.{
  Segment, Vmem, tag, push_free, pop_free, unlink, freelist_index, fixed_size, round_size, covering,
  free_segment_containing,
}
use roanix.Mem.Vmem.Take.{
  Reservation, reserve_tag, reserve_if, prepare_take, take_start, take_end, take_segment,
}
use roanix.Mem.Vmem.Alloc.{alloc_fixed}
use roanix.Mem.Vmem.Release.{free}
use roanix.Mem.Vmem.Tiles.{allocated, spanned}
use roanix.Mem.Vmem.Allocates.{IsArena, Allocates, Serves, take_segment-Allocates}
use roanix.Mem.Vmem.Freeing.{Frees, free-Frees}
use roanix.Mem.Vmem.RoundTrip.{Restores, free-alloc_fixed}

abbrev Tree : OrderedTree Segment
Tree = list_tree Segment

abbrev segment : ℕ → ℕ → Bool → Segment
segment base size free = record { base = base; size = size; span = 8; free = free }

-- The span 8 .. 24 with a quantum of 4, all of it free.
abbrev whole : Vmem Tree
whole = record {
  segments = (8, segment 8 16 true) ∷ [];
  freelists = set (replicate 64 []) 4 (8 ∷ []);
  freelist_map = set (replicate 64 false) 4 true;
  quantum = 4;
  total = 16;
  used = 0;
}

-- The same span with 12 .. 16 allocated.
abbrev parts : List (ℕ × Segment)
parts = (8, segment 8 4 true) ∷ (12, segment 12 4 false) ∷ (16, segment 16 8 true) ∷ []

abbrev split : Vmem Tree
split = record {
  segments = parts;
  freelists = set (set (replicate 64 []) 2 (8 ∷ [])) 3 (16 ∷ []);
  freelist_map = set (set (replicate 64 false) 2 true) 3 true;
  quantum = 4;
  total = 16;
  used = 4;
}

whole-IsArena : IsArena Tree whole
unfolding allocated spanned
whole-IsArena = record {
  tiles = (refl, omega arith, omega arith, omega arith);
  used = refl;
  total = refl;
  quantum = omega arith;
}

split-IsArena : IsArena Tree split
unfolding allocated spanned
split-IsArena = record {
  tiles = (
    refl,
    omega arith,
    omega arith,
    (refl, omega arith, omega arith, (refl, omega arith, omega arith, omega arith)),
  );
  used = refl;
  total = refl;
  quantum = omega arith;
}

abbrev pool : ℕ → Bool
pool base = true

alloc_fixed-split : alloc_fixed Tree pool whole 12 3 ≡ done split
unfolding alloc_fixed fixed_size round_size is_power_of_two covering free_segment_containing tag
    prepare_take reserve_if reserve_tag take_segment take_start take_end publish pop_free push_free
    unlink freelist_index leading_zeros
alloc_fixed-split = refl

free-alloc_fixed_example :
    (n : ℕ) × (x : Vmem Tree) × (free Tree split 12 ≡ done (n, x)) × (3 ≤ n) × Restores Tree whole x
free-alloc_fixed_example =
    free-alloc_fixed Tree pool whole split 12 3 whole-IsArena alloc_fixed-split

free-Frees_example : (w : Vmem Tree) × (free Tree split 12 ≡ done (4, w)) × Frees Tree split w 12 4
free-Frees_example = free-Frees Tree split (segment 12 4 false) split-IsArena refl refl

abbrev reservation : Reservation
reservation = record { base = 12; size = 4; start = some 12; trailing = some 16 }

reservation-Serves : Serves Tree (segment 8 16 true) reservation
reservation-Serves = record {
  from = omega arith;
  some_size = omega arith;
  within = omega arith;
  start = λ h. refl;
  trailing = λ h. refl;
}

take_segment-Allocates_example :
    (w : Vmem Tree) × (take_segment Tree whole 8 reservation ≡ done w) × Allocates Tree whole w 12 4
take_segment-Allocates_example =
    take_segment-Allocates Tree whole whole-IsArena (segment 8 16 true) reservation refl refl
      reservation-Serves
