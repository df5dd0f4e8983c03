-- ===== src/Mem/Phys/Contiguous/Fresh.antt =====
-- kernel/src/mem/phys.rs: the entries of the frames that alloc_contiguous gives out.
use roanix.Prelude.{
  ℕ, zero, suc, ◌+◌, ◌-◌, ◌≤◌, ◌<◌, ◌≡◌, refl, true, false, ◌&&◌, some, ltb, leb, ◌==◌,
  if◌then◌else◌, arith, u64_mod,
}
use roanix.Mem.Phys.PageEntry.{PageState, PageUse, Page, reserved, free, zeroed, allocated, is_free}
use roanix.Mem.Phys.Queues.{page_by_index}
use roanix.Mem.Phys.Totals.{sum}
use roanix.Mem.Phys.Taking.Popping.{unknown}
use roanix.Mem.Phys.Frames.{waits, given, fetch_add-small}
use roanix.Mem.Phys.Allocating.{fresh, allocate-fresh}
use roanix.Mem.Phys.{Phys, assign_at, fetch_add, fetch_sub, is_linked, prepare_allocation}
use roanix.Mem.Phys.Contiguous.{is_usable, is_zeroed, prepare_frames}
use roanix.Mem.Phys.Contiguous.Claiming.{range}

-- The entries where those of a run start afresh.
abbrev pub freshen : ℕ → PageUse → ℕ → (ℕ → Page) → ℕ → Page
freshen zero usage p pages = pages
freshen (suc n) usage p pages = freshen n usage (p + 1) (assign_at pages p (fresh usage))

pub freshen-at :
    (n : ℕ) (usage : PageUse) (p : ℕ) (pages : ℕ → Page) (x : ℕ)
    → freshen n usage p pages x ≡ (if leb p x && ltb x (p + n) then fresh usage else pages x)
freshen-at zero usage p pages x = ground arith
freshen-at (suc n) usage p pages x =
    ground (arith, freshen-at n usage (p + 1) (assign_at pages p (fresh usage)) x)

prepare-fresh :
    (s : Phys) (usage : PageUse) (p : ℕ)
    → is_free (s.pages p).state ≡ true
    → is_linked s p ≡ false
    → prepare_allocation s p usage ≡ some (record s { pages = assign_at s.pages p (fresh usage) })
unfolding prepare_allocation
prepare-fresh s usage p free_state apart =
    rw (apart, prepare_allocation, allocate-fresh usage (s.pages p) free_state) refl

==_above : (i p : ℕ) → p < i → (i == p) ≡ false
==_above i p lt = ground arith

assign_at-other :
    (pages : ℕ → Page) (p : ℕ) (page : Page) (i : ℕ)
    → p < i
    → is_free (pages i).state ≡ true
    → is_free (assign_at pages p page i).state ≡ true
assign_at-other pages p page i lt h = rw (==_above i p lt, assign_at) h

pub prepare_frames-fresh :
    (n : ℕ) (usage : PageUse) (p : ℕ) (s : Phys)
    → ((i : ℕ) → p ≤ i → i < p + n → page_by_index s.pool.segments i ≡ some i)
    → ((i : ℕ) → p ≤ i → i < p + n → is_free (s.pages i).state ≡ true)
    → ((i : ℕ) → p ≤ i → i < p + n → is_linked s i ≡ false)
    → prepare_frames n usage p s ≡ some (true, record s { pages = freshen n usage p s.pages })
unfolding prepare_frames is_linked
prepare_frames-fresh zero usage p s found free_state apart = refl
prepare_frames-fresh (suc n) usage p s found free_state apart =
    let here =
      prepare-fresh s usage p (free_state p (omega arith) (omega arith))
        (apart p (omega arith) (omega arith)) in
    rw (found p (omega arith) (omega arith), prepare_frames, here)
      (prepare_frames-fresh n usage (p + 1) (record s { pages = assign_at s.pages p (fresh usage) })
        (λ i le lt. found i (omega arith) (omega (arith, lt)))
        (λ i le lt.
          assign_at-other s.pages p (fresh usage) i (omega arith)
            (free_state i (omega arith) (omega (arith, lt))))
        (λ i le lt. apart i (omega arith) (omega (arith, lt))))

pub fetch_sub-small : (a b : ℕ) → b ≤ a → fetch_sub a b ≡ a - b
unfolding fetch_sub
fetch_sub-small a b h = ground arith

fetch_add-bounded : (a b : ℕ) → a + b < u64_mod → fetch_add a b ≡ a + b
fetch_add-bounded a b h = fetch_add-small a b h

pub waits-kind : (state : PageState) → is_free state ≡ true → waits (is_zeroed state) state ≡ 1
waits-kind free h = refl
waits-kind zeroed h = refl
waits-kind reserved h = cc
waits-kind allocated h = cc

pub given-free : (state : PageState) → is_free state ≡ true → given state ≡ 0
given-free state h = ground arith

usable-known : (s : Phys) (p : ℕ) → is_usable s p ≡ true → unknown s.pool.segments p ≡ 0
unfolding is_usable page_by_index
usable-known s p h = ground arith

-- Frames that the database finds are known.
pub range-known :
    (s : Phys) (n p : ℕ)
    → ((i : ℕ) → p ≤ i → i < p + n → is_usable s i ≡ true)
    → sum (unknown s.pool.segments) (range n p) ≡ 0
range-known s zero p usable = refl
range-known s (suc n) p usable = omega (
  arith,
  usable-known s p (usable p (omega arith) (omega arith)),
  range-known s n (p + 1) (λ i le lt. usable i (omega arith) (omega (arith, lt))),
)

pub zeros_left :
    (count left : ℕ)
    → left ≤ count
    → (if left == 0 then count else fetch_sub count left) ≡ count - left
zeros_left count left h = ground (arith, fetch_sub-small count left)
