-- ===== src/Mem/Phys/Contiguous/Claiming.antt =====
-- kernel/src/mem/phys.rs: the frames that alloc_contiguous claims.
use roanix.Prelude.{
  ℕ, zero, suc, ◌+◌, ◌≤◌, ◌<◌, ◌≡◌, inl, inr, refl, ap, ◌∙◌, Bool, true, false, ◌&&◌, ◌||◌, some,
  List, [], ◌∷◌, length, contains, ltb, leb, ◌==◌, if◌then◌else◌, arith, Bool-cases,
}
use roanix.Mem.Phys.PageEntry.{PageState, reserved, free, zeroed, allocated, is_free}
use roanix.Mem.Phys.Queues.{PmmState, queue, with_queue, page_by_index}
use roanix.Mem.Phys.Totals.{sum, charge, pmm_total}
use roanix.Mem.Phys.Frames.{at, waits, IsPhys, charge-other}
use roanix.Mem.Phys.Totals.{one, charge-one}
use roanix.Mem.Phys.Releasing.Entries.{sum-erase}
use roanix.Mem.Phys.Zeroing.Loop.{contains-at_least}
use roanix.Mem.Phys.{Phys, is_linked}
use roanix.Mem.Phys.Contiguous.{is_usable, is_zeroed, unlink, unlink_frames}

abbrev pub range : ℕ → ℕ → List ℕ
range zero p = []
range (suc n) p = p ∷ range n (p + 1)

pub length-range : (n p : ℕ) → length (range n p) ≡ n
length-range zero p = refl
length-range (suc n) p = ap suc (length-range n (p + 1))

pub sum-range : (x n p : ℕ) → sum (at x) (range n p) ≡ (if leb p x && ltb x (p + n) then 1 else 0)
sum-range x zero p = ground arith
sum-range x (suc n) p = ground (arith, sum-range x n (p + 1))

-- The weight of a run of frames of these kinds among the frames of one kind.
abbrev pub run_total : (ℕ → Bool) → (ℕ → ℕ) → Bool → ℕ → ℕ → ℕ
run_total kind f y zero p = 0
run_total kind f y (suc n) p = charge f p (kind p) y + run_total kind f y n (p + 1)

pub run_total-at :
    (kind : ℕ → Bool) (x : ℕ) (y : Bool) (n p : ℕ)
    → run_total kind (at x) y n p
      ≡ (if leb p x && ltb x (p + n) then charge (at x) x (kind x) y else 0)
run_total-at kind x y zero p = ground arith
run_total-at kind x y (suc n) p = elim (Bool-cases (x == p)) [
  | inl here ↦ ground (arith, run_total-at kind x y n (p + 1))
  | inr other ↦ ground (arith, run_total-at kind x y n (p + 1), charge-other x p (kind p) y other)
]

pub run_total-one :
    (kind : ℕ → Bool) (n p : ℕ) → run_total kind one false n p + run_total kind one true n p ≡ n
run_total-one kind zero p = refl
run_total-one kind (suc n) p = omega (arith, run_total-one kind n (p + 1), charge-one p (kind p))

unlink-total :
    (p : ℕ) (z : Bool) (m : PmmState) (f : ℕ → ℕ) (y : Bool)
    → sum (at p) (queue z m) ≡ 1
    → pmm_total f y m ≡ charge f p z y + pmm_total f y (unlink p z m)
unfolding unlink queue with_queue
unlink-total p true m f true h = sum-erase f p m.zeros h
unlink-total p true m f false h = omega arith
unlink-total p false m f true h = omega arith
unlink-total p false m f false h = sum-erase f p m.free h

unlink-count : (p : ℕ) (z : Bool) (m : PmmState) → (unlink p z m).nfree ≡ m.nfree
unfolding unlink with_queue
unlink-count p true m = refl
unlink-count p false m = refl

queue-total : (f : ℕ → ℕ) (z : Bool) (m : PmmState) → sum f (queue z m) ≡ pmm_total f z m
unfolding queue
queue-total f true m = refl
queue-total f false m = refl

pub page_by_index-same :
    (s : Phys) (p : ℕ)
    → is_usable s p ≡ true
    → (page_by_index s.pool.segments p ≡ some p)
      × (is_free (s.pages p).state ≡ true)
      × (is_linked s p ≡ true)
unfolding is_usable page_by_index
page_by_index-same s p h = ground arith

abbrev pub kind_of : Phys → ℕ → Bool
kind_of s p = is_zeroed (s.pages p).state

linked-kind :
    (p : ℕ) (state : PageState) (m : PmmState)
    → is_free state ≡ true
    → (contains p m.free || contains p m.zeros) ≡ true
    → ((z : Bool) → pmm_total (at p) z m ≤ waits z state)
    → sum (at p) (queue (is_zeroed state) m) ≡ 1
unfolding queue
linked-kind p free m h linked le =
    ground (arith, le true, le false, contains-at_least p m.free, contains-at_least p m.zeros)
linked-kind p zeroed m h linked le =
    ground (arith, le true, le false, contains-at_least p m.free, contains-at_least p m.zeros)
linked-kind p reserved m h linked le = cc
linked-kind p allocated m h linked le = cc

-- A linked frame stands in the list of its kind.
pub linked-queue :
    (s : Phys) (out : List ℕ) (p : ℕ)
    → IsPhys s out
    → is_usable s p ≡ true
    → sum (at p) (queue (kind_of s p) s.pool.pmm) ≡ 1
unfolding is_linked
linked-queue s out p v usable =
    let (found, is_free_state, linked) = page_by_index-same s p usable in
    linked-kind p (s.pages p).state s.pool.pmm is_free_state linked (λ z. omega (arith, v.held p z))

still-queued :
    (s : Phys) (p i : ℕ) (m : PmmState)
    → sum (at p) (queue (kind_of s p) m) ≡ 1
    → p < i
    → sum (at i) (queue (kind_of s i) m) ≡ 1
    → sum (at i) (queue (kind_of s i) (unlink p (kind_of s p) m)) ≡ 1
still-queued s p i m here lt there = omega (
  arith,
  queue-total (at i) (kind_of s i) m,
  there,
  queue-total (at i) (kind_of s i) (unlink p (kind_of s p) m),
  unlink-total p (kind_of s p) m (at i) (kind_of s i) here,
  charge-other i p (kind_of s p) (kind_of s i) (ground arith),
)

counted-charge : (p : ℕ) (z : Bool) (k : ℕ) → (if z then k + 1 else k) ≡ charge one p z true + k
counted-charge p true k = omega arith
counted-charge p false k = omega arith

pub unlink_frames-total :
    (s : Phys) (n p : ℕ) (m : PmmState)
    → ((i : ℕ) → p ≤ i → i < p + n → is_usable s i ≡ true)
    → ((i : ℕ) → p ≤ i → i < p + n → sum (at i) (queue (kind_of s i) m) ≡ 1)
    → (m' : PmmState) × (unlink_frames n s p m ≡ (true, run_total (kind_of s) one true n p, m'))
      × (m'.nfree ≡ m.nfree)
      × ((f : ℕ → ℕ) (y : Bool)
          → pmm_total f y m ≡ run_total (kind_of s) f y n p + pmm_total f y m')
unfolding unlink_frames
unlink_frames-total s zero p m usable stands = (m, refl, refl, λ f y. omega arith)
unlink_frames-total s (suc n) p m usable stands =
    let here = stands p (omega arith) (omega arith) in
    let (m', e, same, sums) =
      unlink_frames-total s n (p + 1) (unlink p (kind_of s p) m)
        (λ i le lt. usable i (omega arith) (omega (arith, lt)))
        (λ i le lt.
          still-queued s p i m here (omega arith) (stands i (omega arith) (omega (arith, lt)))) in
    (
      m',
      rw ((page_by_index-same s p (usable p (omega arith) (omega arith))).0, unlink_frames, e)
          (ap (λ (k : ℕ). (true, k, m'))
            (counted-charge p (kind_of s p) (run_total (kind_of s) one true n (p + 1)))),
      same ∙ unlink-count p (kind_of s p) m,
      λ f y. omega (arith, sums f y, unlink-total p (kind_of s p) m f y here),
    )
