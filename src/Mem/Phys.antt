-- ===== src/Mem/Phys.antt =====
-- kernel/src/mem/phys.rs: the allocator of physical frames. A frame is its number; its database entry
-- is `pages` at that number, and `clear` tells whether its memory holds zeros. A call of an operation is
-- one step, and a failed assertion is none.
pub mod PageEntry
pub mod Queues
pub mod Totals
pub mod Taking
pub mod Counting
pub mod Putting
pub mod Frames
pub mod Allocating
pub mod Releasing
pub mod Zeroing
pub mod Search
pub mod Contiguous
pub mod Steps
mod Tests
pub mod Draining
use roanix.Prelude.{
  ℕ, zero, suc, ◌+◌, ◌-◌, ◌%◌, ◌≤◌, min, Bool, true, false, not, ◌&&◌, ◌||◌, Option, none, some,
  List, [], ◌∷◌, length, contains, ltb, leb, ◌==◌, if◌then◌else◌, u64_mod,
}
use roanix.Mem.Reserve.{Access, access}
use roanix.Mem.Phys.PageEntry.{
  PageState, PageUse, Page, managed, zeroed, is_dynamic, allocate, release, is_free,
}
use roanix.Mem.Phys.Queues.{
  PmmState, Pool, Entry, page_by_index, take_page, pop_front, push_back, page_cache_refill,
}
use roanix.Mem.Phys.Queues.Giving.{put_page}

pub record Phys : Type 0 where
  pub ready : Bool
  pub pool : Pool
  pub pages : ℕ → Page
  pub clear : ℕ → Bool
  pub max_pfn : ℕ
  pub total_pages : ℕ
  pub used_pages : ℕ
  pub free_pages : ℕ
  pub zero_pages : ℕ

-- What an operation reads of the CPU and the thread that it runs on.
pub record Caller : Type 0 where
  pub cpu : ℕ
  pub cpus : ℕ
  pub kernel_thread : Bool
  pub daemon : Bool

abbrev pub assign_at {ℓ} : {A : Type ℓ} → (ℕ → A) → ℕ → A → ℕ → A
assign_at f p v = λ q. if q == p then v else f q

-- `fetch_add` and `fetch_sub` of a `usize`.
unfoldable pub fetch_add : ℕ → ℕ → ℕ
fetch_add a b = (a + b) % u64_mod

unfoldable pub fetch_sub : ℕ → ℕ → ℕ
fetch_sub a b = if leb b a then a - b else a + u64_mod - b

unfoldable pub is_linked : Phys → ℕ → Bool
is_linked s p = contains p s.pool.pmm.free || contains p s.pool.pmm.zeros

unfoldable pub prepare_allocation : Phys → ℕ → PageUse → Option Phys
unfolding allocate is_linked
prepare_allocation s p usage = if is_linked s p then none else elim (allocate usage (s.pages p)) [
  | none ↦ none
  | some page ↦ some (record s { pages = assign_at s.pages p page })
]

unfoldable pub prepare_free : Phys → ℕ → Bool → Option Phys
unfolding release is_linked
prepare_free s p zero_filled =
    if is_linked s p then none else elim (release zero_filled (s.pages p)) [
      | none ↦ none
      | some page ↦ some (record s { pages = assign_at s.pages p page })
    ]

unfoldable pub zero_page : Phys → ℕ → Phys
zero_page s p = record s { clear = assign_at s.clear p true }

-- The counters after a frame was taken.
unfoldable pub count_taken : Phys → Pool → Bool → Phys
unfolding fetch_add fetch_sub
count_taken s q was_zero = record s {
  pool = q;
  free_pages = fetch_sub s.free_pages 1;
  used_pages = fetch_add s.used_pages 1;
  zero_pages = if was_zero then fetch_sub s.zero_pages 1 else s.zero_pages;
}

-- What alloc_page does with the answer of take_page.
unfoldable pub hand_out : PageUse → Bool → Phys → Option Entry × Pool → Option (Option ℕ × Phys)
unfolding count_taken prepare_allocation zero_page
hand_out usage want_zero s (none, q) = some (none, record s { pool = q })
hand_out usage want_zero s (some (p, was_zero), q) =
    elim (prepare_allocation (count_taken s q was_zero) p usage) [
      | none ↦ none
      | some s' ↦ some (some p, if want_zero && not was_zero then zero_page s' p else s')
    ]

unfoldable pub alloc_page : Caller → PageUse → Bool → Bool → Phys → Option (Option ℕ × Phys)
unfolding hand_out
alloc_page caller usage want_zero use_reserve s =
    if not s.ready
    then some (none, s)
    else if not (is_dynamic usage && ltb caller.cpu (length s.pool.caches))
    then none
    else hand_out usage want_zero s (
        take_page want_zero
          (λ nfree. access nfree caller.cpus (use_reserve || caller.kernel_thread) caller.daemon)
          caller.cpu s.pool)

-- `alloc_zeroed_page`
unfoldable pub alloc_zeroed_page : Caller → PageUse → Phys → Option (Option ℕ × Phys)
unfolding alloc_page
alloc_zeroed_page caller usage s =
    alloc_page caller usage true (elim usage [ managed ↦ false | _ ↦ true ]) s

-- The counters after a frame was given back.
unfoldable pub count_freed : Phys → Bool → Phys
unfolding fetch_add fetch_sub
count_freed s zero_filled = record s {
  used_pages = fetch_sub s.used_pages 1;
  free_pages = fetch_add s.free_pages 1;
  zero_pages = if zero_filled then fetch_add s.zero_pages 1 else s.zero_pages;
}

unfoldable pub put_back : ℕ → Bool → ℕ → Phys → Option Phys
put_back p zero_filled cpu s = elim (put_page p zero_filled cpu s.pool) [
  | none ↦ none
  | some q ↦ some (record s { pool = q })
]

-- `free_page_inner`, with `zero_filled` for free_zeroed_page.
unfoldable pub free_page : Caller → ℕ → Bool → Phys → Option Phys
unfolding prepare_free count_freed put_back
free_page caller p zero_filled s = elim (prepare_free s p zero_filled) [
  | none ↦ none
  | some s' ↦ put_back p zero_filled caller.cpu (count_freed s' zero_filled)
]

-- The loop of zero_free_pages over the frames that it finds.
unfoldable pub pop_fronts : ℕ → PmmState → List ℕ × PmmState
unfolding pop_front
pop_fronts zero m = ([], m)
pop_fronts (suc n) m = elim (pop_front false m) [
  | none ↦ ([], m)
  | some (p, m') ↦
      let rest = pop_fronts n (record m' { nfree = m'.nfree - 1 }) in (p ∷ rest.0, rest.1)
]

unfoldable pub push_backs : List ℕ → PmmState → PmmState
unfolding push_back
push_backs [] m = m
push_backs (p ∷ ps) m = push_backs ps (push_back p true m)

unfoldable pub zero_pages_of : List ℕ → Phys → Phys
unfolding zero_page
zero_pages_of [] s = s
zero_pages_of (p ∷ ps) s =
    let z = zero_page s p in
    zero_pages_of ps
      (record z { pages = assign_at z.pages p (record (z.pages p) { state = zeroed }) })

unfoldable pub zero_free_pages : ℕ → Phys → ℕ × Phys
unfolding pop_fronts push_backs zero_pages_of fetch_add
zero_free_pages maximum s =
    if maximum == 0 || not s.ready
    then (0, s)
    else let found = pop_fronts (min maximum page_cache_refill) s.pool.pmm in
      let z = zero_pages_of found.0 s in
      (
        length found.0,
        record s {
          pages = z.pages;
          clear = z.clear;
          pool = record s.pool { pmm = push_backs found.0 found.1 };
          zero_pages = fetch_add s.zero_pages (length found.0);
        },
      )
