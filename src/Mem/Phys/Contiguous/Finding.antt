-- ===== src/Mem/Phys/Contiguous/Finding.antt =====
-- kernel/src/mem/phys.rs: what alloc_contiguous returns.
use roanix.Prelude.{
  ℕ, ◌+◌, ◌*◌, ◌≤◌, ◌<◌, ◌≡◌, ◌⊎◌, inl, inr, refl, max, true, not, ◌||◌, Option, none, some, List,
  ◌++◌, ltb, ◌==◌, if◌then◌else◌, arith, Bool-cases, Option-cases, saturating_add,
}
use roanix.Prelude.Bits.{is_power_of_two}
use roanix.Mem.PhysSeg.{IsLaidOut, next, lookup}
use roanix.Mem.PhysSeg.Slices.{next-ge, next-lookup}
use roanix.Mem.Reserve.{daemon_pages}
use roanix.Mem.Phys.PageEntry.{PageUse, is_free, is_dynamic}
use roanix.Mem.Phys.Queues.{Pool, page_by_index}
use roanix.Mem.Phys.Queues.Giving.{drain_page_caches}
use roanix.Mem.Phys.Draining.{drain_page_caches-IsMoved}
use roanix.Mem.Phys.Counting.{drain_page_caches-IsCounted}
use roanix.Mem.Phys.Frames.{IsPhys, IsMoved-IsPhys}
use roanix.Mem.Phys.Search.Runs.{IsMultiple, IsCandidate, Finds, search-Finds}
use roanix.Mem.Phys.{Phys, Caller}
use roanix.Mem.Phys.Contiguous.{
  is_usable, claim, claim_found, entries_below, find_run, alloc_contiguous,
}
use roanix.Mem.Phys.Contiguous.Claiming.{
  range, page_by_index-same, linked-queue, unlink_frames-total,
}
use roanix.Mem.Phys.Contiguous.Preparing.{claimed, claimed-IsPhys, claim-claimed}
use roanix.Mem.Phys.Contiguous.Fresh.{freshen}

usable-lookup :
    (s : Phys) (p : ℕ) → is_usable s p ≡ true → (i : ℕ) × (lookup s.pool.segments p ≡ some i)
unfolding is_usable page_by_index
usable-lookup s p h = elim (Option-cases (lookup s.pool.segments p)) [
  | inl nothing ↦ absurd (ground arith)
  | inr found ↦ found
]

find_run-Finds :
    (s : Phys) (count align entries : ℕ)
    → IsLaidOut 0 0 s.pool.segments
    → 0 < count
    → 0 < align
    → Finds (is_usable s) count align entries 0 (find_run s count align entries)
unfolding find_run
find_run-Finds s count align entries laid some_frames some_align =
    search-Finds (is_usable s) (next s.pool.segments) count align entries some_frames some_align
      (λ from m e. next-ge s.pool.segments from e)
      (λ from i le usable.
        let (index, e) = usable-lookup s i usable in
        let (m, e', ge, before) = next-lookup 0 0 s.pool.segments from i laid e le in
        (m, e', before))
      (entries + 1) 0 (omega arith)

-- The frames from `base` on were free and are given out together.
pub record IsClaimed (usage : PageUse) (count align max_address : ℕ) (s : Phys) (out : List ℕ)
    (base : ℕ) (s' : Phys) : Type 0 where
  pub valid : IsPhys s' (range count base ++ out)
  pub aligned : IsMultiple align base
  pub addressable : (base + count) * 4096 ≤ max_address + 1
  pub were_free : (i : ℕ) → base ≤ i → i < base + count → is_free (s.pages i).state ≡ true
  pub are_fresh : s'.pages ≡ freshen count usage base s.pages

-- Nothing is given out, and if the call was not refused outright, then because no run of free
-- frames that the queues hold is aligned and below the limit.
pub record IsRefused (caller : Caller) (count align max_address : ℕ) (s : Phys) (out : List ℕ)
    (s' : Phys) : Type 0 where
  pub valid : IsPhys s' out
  pub keeps_pages : s'.pages ≡ s.pages
  pub no_run :
      s.ready ≡ true
      → 0 < count
      → is_power_of_two align ≡ true
      → saturating_add count (if caller.daemon then 0 else daemon_pages) ≤ s'.pool.pmm.nfree
      → (from : ℕ) → IsCandidate (is_usable s') count align (entries_below s max_address) 0 from
      → ⊥

abbrev pub IsContiguous : Caller → PageUse → ℕ → ℕ → ℕ → Phys → List ℕ → Option ℕ × Phys → Type 0
IsContiguous caller usage count align max_address s out (none, s') =
    IsRefused caller count align max_address s out s'
IsContiguous caller usage count align max_address s out (some base, s') =
    IsClaimed usage count align max_address s out base s'

claim-IsClaimed :
    (usage : PageUse) (count align max_address base : ℕ) (s : Phys) (out : List ℕ)
    → IsPhys s out
    → IsCandidate (is_usable s) count align (entries_below s max_address) 0 base
    → (s' : Phys) × (claim usage count base s ≡ some (some base, s'))
      × IsClaimed usage count align max_address s out base s'
unfolding entries_below
claim-IsClaimed usage count align max_address base s out v c =
    let (m, e, same, sums) =
      unlink_frames-total s count base s.pool.pmm c.runs
        (λ i le lt. linked-queue s out i v (c.runs i le lt)) in
    (
      claimed s out usage count base m v c.runs sums same,
      claim-claimed s out usage count base m v c.runs sums same e,
      record {
        valid = claimed-IsPhys s out usage count base m v c.runs sums same;
        aligned = c.aligned;
        addressable = omega (arith, c.below);
        were_free = λ i le lt. (page_by_index-same s i (c.runs i le lt)).1;
        are_fresh = refl;
      },
    )

claim_found-IsContiguous :
    (caller : Caller) (usage : PageUse) (count align max_address : ℕ) (s : Phys) (out : List ℕ)
    (o : Option (Option ℕ))
    → IsPhys s out
    → Finds (is_usable s) count align (entries_below s max_address) 0 o
    → (a : Option ℕ × Phys) × (claim_found usage count s o ≡ some a)
      × IsContiguous caller usage count align max_address s out a
claim_found-IsContiguous caller usage count align max_address s out none v h = absurd h
claim_found-IsContiguous caller usage count align max_address s out (some none) v h = (
  (none, s),
  refl,
  record {
    valid = v;
    keeps_pages = refl;
    no_run = λ ready some_frames power enough from c. h from c;
  },
)
claim_found-IsContiguous caller usage count align max_address s out (some (some base)) v h =
    let (s', e, claimed) = claim-IsClaimed usage count align max_address base s out v h.0 in
    ((some base, s'), e, claimed)

-- The refusals ahead of the search.
refused :
    (caller : Caller) (count align max_address : ℕ) (s : Phys) (out : List ℕ) (s' : Phys)
    → IsPhys s' out
    → s'.pages ≡ s.pages
    → (s.ready ≡ true
        → 0 < count
        → is_power_of_two align ≡ true
        → saturating_add count (if caller.daemon then 0 else daemon_pages) ≤ s'.pool.pmm.nfree
        → entries_below s max_address < count ⊎ ⊥)
    → IsRefused caller count align max_address s out s'
refused caller count align max_address s out s' v same why = record {
  valid = v;
  keeps_pages = same;
  no_run = λ ready some_frames power enough from c. elim (why ready some_frames power enough) [
    | inl few ↦ absurd (omega (arith, few, c.below))
    | inr never ↦ never
  ];
}

-- Draining the caches changes no frame's entry.
from_drained :
    (caller : Caller) (usage : PageUse) (count align max_address : ℕ) (s : Phys) (q : Pool)
    (out : List ℕ) (a : Option ℕ × Phys)
    → IsContiguous caller usage count align max_address (record s { pool = q }) out a
    → IsContiguous caller usage count align max_address s out a
unfolding entries_below
from_drained caller usage count align max_address s q out (none, s') h = record {
  valid = h.valid;
  keeps_pages = h.keeps_pages;
  no_run = h.no_run;
}
from_drained caller usage count align max_address s q out (some base, s') h = record {
  valid = h.valid;
  aligned = h.aligned;
  addressable = h.addressable;
  were_free = h.were_free;
  are_fresh = h.are_fresh;
}

pub alloc_contiguous-IsContiguous :
    (caller : Caller) (usage : PageUse) (count align_pages max_address : ℕ) (s : Phys)
    (out : List ℕ)
    → IsPhys s out
    → is_dynamic usage ≡ true
    → (a : Option ℕ × Phys) × (alloc_contiguous caller usage count align_pages max_address s
        ≡ some a)
      × IsContiguous caller usage count (max align_pages 1) max_address s out a
unfolding alloc_contiguous
alloc_contiguous-IsContiguous caller usage count align_pages max_address s out v dynamic =
    let align = max align_pages 1 in
    let drained = record s { pool = drain_page_caches s.pool } in
    let entries = entries_below s max_address in
    let least = if caller.daemon then 0 else daemon_pages in
    let w =
      IsMoved-IsPhys s (drain_page_caches s.pool) out (drain_page_caches-IsMoved s.pool v.known)
        (drain_page_caches-IsCounted s.pool v.listed) v in
    elim (Bool-cases (not s.ready || count == 0)) [
      | inl early ↦ (
        (none, s),
        simp (early),
        refused caller count align max_address s out s v refl
            (λ ready some_frames power enough. absurd (ground arith)),
      )
      | inr on_time ↦ elim (Bool-cases (is_power_of_two align)) [
        | inr odd ↦ (
          (none, s),
          simp (on_time, dynamic, odd),
          refused caller count align max_address s out s v refl
              (λ ready some_frames power enough. absurd (ground arith)),
        )
        | inl power ↦
            elim (Bool-cases
              (ltb entries count || ltb drained.pool.pmm.nfree (saturating_add count least))) [
                | inl few ↦ (
                  (none, drained),
                  simp (on_time, dynamic, power, few),
                  refused caller count align max_address s out drained w refl
                      (λ ready some_frames power enough. inl (ground arith)),
                )
                | inr enough ↦
                    let (a, e, h) =
                      claim_found-IsContiguous caller usage count align max_address drained out
                        (find_run drained count align entries) w
                        (find_run-Finds drained count align entries v.laid (ground arith)
                          (omega arith)) in
                    (
                      a,
                      simp (on_time, dynamic, power, enough) e,
                      from_drained caller usage count align max_address s (drain_page_caches s.pool)
                          out a h,
                    )
              ]
      ]
    ]
