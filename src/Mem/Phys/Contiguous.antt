-- ===== src/Mem/Phys/Contiguous.antt =====
-- kernel/src/mem/phys.rs: alloc_contiguous and free_contiguous.
pub mod Claiming
pub mod Preparing
pub mod Finding
pub mod Fresh
use roanix.Prelude.{
  ℕ, zero, suc, ◌+◌, ◌-◌, ◌/◌, min, max, Bool, true, false, not, ◌&&◌, ◌||◌, Option, none, some,
  List, [], ltb, ◌==◌, if◌then◌else◌, saturating_add,
}
use roanix.Prelude.Bits.{is_power_of_two}
use roanix.Mem.PhysSeg.{next}
use roanix.Mem.Reserve.{daemon_pages}
use roanix.Mem.Phys.PageEntry.{
  PageState, PageUse, reserved, free, zeroed, allocated, is_free, is_dynamic,
}
use roanix.Mem.Phys.Queues.{PmmState, Pool, queue, with_queue, erase, page_by_index}
use roanix.Mem.Phys.Queues.Giving.{drain_page_caches}
use roanix.Mem.Phys.Search.{search}
use roanix.Mem.Phys.{Phys, Caller, fetch_add, fetch_sub, is_linked, prepare_allocation, free_page}

-- Whether the search may take a frame.
unfoldable pub is_usable : Phys → ℕ → Bool
unfolding page_by_index is_linked
is_usable s p = elim (page_by_index s.pool.segments p) [
  | none ↦ false
  | some q ↦ is_free (s.pages q).state && is_linked s q
]

abbrev pub is_zeroed : PageState → Bool
is_zeroed zeroed = true
is_zeroed free = false
is_zeroed reserved = false
is_zeroed allocated = false

abbrev pub counting : Bool → Bool × ℕ × PmmState → Bool × ℕ × PmmState
counting was_zero (found, cleared, m) = (found, if was_zero then cleared + 1 else cleared, m)

-- The removal of a frame from the list of its kind.
unfoldable pub unlink : ℕ → Bool → PmmState → PmmState
unfolding queue with_queue
unlink p was_zero m = with_queue was_zero (erase p (queue was_zero m)) m

-- The frames of the run leave their lists; returned is whether all of them were found, and how
-- many held zeros.
unfoldable pub unlink_frames : ℕ → Phys → ℕ → PmmState → Bool × ℕ × PmmState
unfolding unlink page_by_index
unlink_frames zero s p m = (true, 0, m)
unlink_frames (suc n) s p m = elim (page_by_index s.pool.segments p) [
  | none ↦ (false, 0, m)
  | some q ↦
      let was_zero = is_zeroed (s.pages q).state in
      counting was_zero (unlink_frames n s (p + 1) (unlink q was_zero m))
]

-- The claim of the frames, with whether all of them were found.
unfoldable pub prepare_frames : ℕ → PageUse → ℕ → Phys → Option (Bool × Phys)
unfolding prepare_allocation page_by_index
prepare_frames zero usage p s = some (true, s)
prepare_frames (suc n) usage p s = elim (page_by_index s.pool.segments p) [
  | none ↦ some (false, s)
  | some q ↦ elim (prepare_allocation s q usage) [
    | none ↦ none
    | some s' ↦ prepare_frames n usage (p + 1) s'
  ]
]

abbrev pub answered : ℕ → ℕ → ℕ → Option (Bool × Phys) → Option (Option ℕ × Phys)
answered base count cleared none = none
answered base count cleared (some (false, s)) = some (none, s)
answered base count cleared (some (true, s)) = some (
  some base,
  record s {
    free_pages = fetch_sub s.free_pages count;
    used_pages = fetch_add s.used_pages count;
    zero_pages = if cleared == 0 then s.zero_pages else fetch_sub s.zero_pages cleared;
  },
)

-- What follows the removal of the frames; a frame that is not found ends the call.
unfoldable pub claim_unlinked :
    PageUse → ℕ → ℕ → Phys → Bool × ℕ × PmmState → Option (Option ℕ × Phys)
unfolding prepare_frames fetch_add fetch_sub
claim_unlinked usage count base s (false, cleared, m) =
    some (none, record s { pool = record s.pool { pmm = m } })
claim_unlinked usage count base s (true, cleared, m) = answered base count cleared (
    prepare_frames count usage base
      (record s { pool = record s.pool { pmm = record m { nfree = m.nfree - count } } }))

unfoldable pub claim : PageUse → ℕ → ℕ → Phys → Option (Option ℕ × Phys)
unfolding unlink_frames claim_unlinked
claim usage count base s = claim_unlinked usage count base s (unlink_frames count s base s.pool.pmm)

-- The number of frames that lie below the limit.
unfoldable pub entries_below : Phys → ℕ → ℕ
entries_below s max_address = min s.max_pfn (saturating_add max_address 1 / 4096)

unfoldable pub find_run : Phys → ℕ → ℕ → ℕ → Option (Option ℕ)
unfolding search is_usable next
find_run s count align entries =
    search (entries + 1) (is_usable s) (next s.pool.segments) count align entries 0

abbrev pub claim_found : PageUse → ℕ → Phys → Option (Option ℕ) → Option (Option ℕ × Phys)
claim_found usage count s none = none
claim_found usage count s (some none) = some (none, s)
claim_found usage count s (some (some base)) = claim usage count base s

-- The search starts at the first multiple of the alignment, which is 0.
unfoldable pub alloc_contiguous : Caller → PageUse → ℕ → ℕ → ℕ → Phys → Option (Option ℕ × Phys)
unfolding is_power_of_two entries_below find_run claim drain_page_caches is_dynamic
alloc_contiguous caller usage count align_pages max_address s =
    if not s.ready || count == 0
    then some (none, s)
    else if not (is_dynamic usage)
    then none
    else if not (is_power_of_two (max align_pages 1))
    then some (none, s)
    else let drained = record s { pool = drain_page_caches s.pool } in
      let entries = entries_below s max_address in
      let least = if caller.daemon then 0 else daemon_pages in
      if ltb entries count || ltb drained.pool.pmm.nfree (saturating_add count least)
      then some (none, drained)
      else claim_found usage count drained (find_run drained count (max align_pages 1) entries)

-- The frames of a run are given back one by one; a frame that is not found ends the loop.
unfoldable pub free_contiguous : Caller → ℕ → ℕ → Phys → Option Phys
unfolding free_page page_by_index
free_contiguous caller first zero s = some s
free_contiguous caller first (suc n) s = elim (page_by_index s.pool.segments first) [
  | none ↦ some s
  | some p ↦ elim (free_page caller p false s) [
    | none ↦ none
    | some s' ↦ free_contiguous caller (first + 1) n s'
  ]
]
