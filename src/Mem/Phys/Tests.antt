-- ===== src/Mem/Phys/Tests.antt =====
-- kernel/src/mem/phys.rs and physseg.rs at a small memory.
use roanix.Prelude.{
  ℕ, ◌≡◌, refl, Bool, true, false, ◌||◌, Option, none, some, List, [], ◌∷◌, ◌==◌, if◌then◌else◌,
  arith,
}
use roanix.Mem.PhysSeg.{Segment, initialize, lookup, next}
use roanix.Mem.PhysSeg.Slices.{IsDatabase, initialize-IsDatabase}
use roanix.Mem.Phys.PageEntry.{
  PageState, Page, managed, unused, unowned, no_flags, reserved, free, zeroed, is_dynamic,
}
use roanix.Mem.Phys.Queues.{take_page, pop_cache, pop_either}
use roanix.Mem.Phys.Frames.{IsPhys, at, waits}
use roanix.Mem.Phys.Totals.{total}
use roanix.Mem.Phys.Taking.Popping.{unknown}
use roanix.Mem.Phys.Allocating.{fresh, Answers, alloc_page-Answers}
use roanix.Mem.Phys.Releasing.{free_page-IsPhys}
use roanix.Mem.Phys.Releasing.Entries.{IsReleasable}
use roanix.Mem.Phys.Steps.{here, then_step, allocates, zeroes, InPlace, Steps-InPlace}
use roanix.Mem.Phys.{Phys, Caller, assign_at, alloc_page, free_page, zero_free_pages}

abbrev segment : ℕ → ℕ → ℕ → Segment
segment start stop first = record { start = start; stop = stop; first = first }

-- Two segments, given out of order.
abbrev unsorted : List Segment
unsorted = segment 9 11 0 ∷ segment 2 6 0 ∷ []

abbrev segments : List Segment
segments = segment 2 6 0 ∷ segment 9 11 4 ∷ []

initialized : initialize unsorted ≡ some (segments, 6)
unfolding initialize
initialized = refl

initialize-IsDatabase_example : IsDatabase segments unsorted 6
initialize-IsDatabase_example = initialize-IsDatabase unsorted initialized

lookups : (lookup segments 10 ≡ some 5) × (lookup segments 7 ≡ none) × (next segments 6 ≡ some 9)
unfolding lookup next
lookups = (refl, refl, refl)

abbrev page_in : PageState → Page
page_in state = record {
  state = state;
  usage = unused;
  owner_kind = unowned;
  flags = no_flags;
  wire_count = 0;
  loan_count = 0;
  map_count = 0;
}

-- Frames 2 and 4 are in the list, 3 is in the cache of the only CPU, 5 is a zero page, and 9 and 10
-- are out.
abbrev memory : Phys
memory = record {
  ready = true;
  pool = record {
    segments = segments;
    pmm = record { free = 2 ∷ 4 ∷ []; zeros = 5 ∷ []; nfree = 3 };
    caches = record { dirty = 3 ∷ []; zeros = [] } ∷ [];
  };
  pages = λ p.
      if p == 5
      then page_in zeroed
      else if p == 2 || p == 3 || p == 4
      then page_in free
      else if p == 9 || p == 10
      then fresh managed
      else page_in reserved;
  clear = λ p. p == 5;
  max_pfn = 11;
  total_pages = 6;
  used_pages = 2;
  free_pages = 4;
  zero_pages = 1;
}

memory-held : (p : ℕ) (z : Bool) → total (at p) z memory.pool ≡ waits z (memory.pages p).state
memory-held p true = ground arith
memory-held p false = ground arith

memory-known : (y : Bool) → total (unknown segments) y memory.pool ≡ 0
unfolding lookup
memory-known true = refl
memory-known false = refl

memory-IsPhys : IsPhys memory (9 ∷ 10 ∷ [])
unfolding lookup
memory-IsPhys = record {
  laid = (omega arith, omega arith, refl, (omega arith, omega arith, refl, tt));
  listed = refl;
  known = memory-known;
  held = memory-held;
  out_given = λ p. ground arith;
  out_known = refl;
  cleared = λ p e. ground arith;
  free_counted = refl;
  zero_counted = refl;
  used_counted = refl;
  conserved = refl;
  bounded = omega arith;
}

abbrev caller : Caller
caller = record { cpu = 0; cpus = 1; kernel_thread = false; daemon = false }

-- Frame 3 comes out of the cache and is cleared.
abbrev after_alloc : Phys
after_alloc = record memory {
  pool = record memory.pool { caches = record { dirty = []; zeros = [] } ∷ [] };
  pages = assign_at memory.pages 3 (fresh managed);
  clear = assign_at memory.clear 3 true;
  used_pages = 3;
  free_pages = 3;
}

allocated_lem : alloc_page caller managed true false memory ≡ some (some 3, after_alloc)
unfolding alloc_page is_dynamic take_page pop_cache pop_either lookup
allocated_lem = refl

alloc_page-Answers_example :
    (a : Option ℕ × Phys) × (alloc_page caller managed true false memory ≡ some a)
    × Answers managed true memory (9 ∷ 10 ∷ []) a
unfolding is_dynamic
alloc_page-Answers_example =
    alloc_page-Answers caller managed true false memory (9 ∷ 10 ∷ []) memory-IsPhys refl
      (omega arith)

releasable : IsReleasable (memory.pages 10)
releasable = record {
  is_out = refl;
  not_owned = refl;
  not_wired = refl;
  not_lent = refl;
  not_mapped = refl;
}

free_page-IsPhys_example :
    (s' : Phys) × (free_page caller 10 false memory ≡ some s') × IsPhys s' (9 ∷ [])
free_page-IsPhys_example =
    free_page-IsPhys caller 10 false memory (9 ∷ 10 ∷ []) memory-IsPhys releasable (λ e. cc) refl

Steps-InPlace_example : InPlace (zero_free_pages 2 after_alloc).1
unfolding is_dynamic
Steps-InPlace_example =
    Steps-InPlace
      (then_step memory after_alloc (zero_free_pages 2 after_alloc).1
        (then_step memory memory after_alloc (here memory) (
          allocates caller managed true false memory after_alloc (some 3) refl (omega arith)
            allocated_lem))
        (zeroes 2 after_alloc))
      (9 ∷ 10 ∷ [], memory-IsPhys)
