-- ===== src/Mem/Phys/Zeroing/Loop.antt =====
-- kernel/src/mem/phys.rs: the loops of zero_free_pages.
use roanix.Prelude.{
  ℕ, zero, suc, ◌+◌, ◌-◌, ◌≤◌, ◌≡◌, inl, inr, refl, Bool, true, false, ◌||◌, List, [], ◌∷◌, length,
  contains, if◌then◌else◌, arith, Option-cases,
}
use roanix.Mem.Phys.PageEntry.{PageState, zeroed}
use roanix.Mem.Phys.Queues.{PmmState, pop_front, push_back}
use roanix.Mem.Phys.Totals.{sum, pmm_total, pop_front-total, push_back-total, pmm_total-count}
use roanix.Mem.Phys.Putting.{charge_all, charge_all-nil, charge_all-cons}
use roanix.Mem.Phys.Frames.{at, waits, given}
use roanix.Mem.Phys.Totals.{one, IsCounted, charge-one}
use roanix.Mem.Phys.Counting.{push_back-IsCounted}
use roanix.Mem.Phys.{Phys, assign_at, zero_page, pop_fronts, push_backs, zero_pages_of}

pub pop_fronts-total :
    (n : ℕ) (m : PmmState) (f : ℕ → ℕ) (y : Bool)
    → pmm_total f y m ≡ charge_all f (pop_fronts n m).0 false y + pmm_total f y (pop_fronts n m).1
unfolding pop_fronts
pop_fronts-total zero m f y = omega (arith, charge_all-nil f false y)
pop_fronts-total (suc n) m f y = elim (Option-cases (pop_front false m)) [
  | inl nothing ↦ rw (nothing, pop_fronts) (omega (arith, charge_all-nil f false y))
  | inr ((p, m'), front) ↦
      let counted = record m' { nfree = m'.nfree - 1 } in
      rw (front, pop_fronts)
        (omega (
          arith,
          pop_front-total f false y m front,
          pmm_total-count f y m' (m'.nfree - 1),
          pop_fronts-total n (record m' { nfree = m'.nfree - 1 }) f y,
          charge_all-cons f p (pop_fronts n (record m' { nfree = m'.nfree - 1 })).0 false y,
        ))
]

pub push_backs-total :
    (ps : List ℕ) (m : PmmState) (f : ℕ → ℕ) (y : Bool)
    → pmm_total f y (push_backs ps m) ≡ charge_all f ps true y + pmm_total f y m
unfolding push_backs
push_backs-total [] m f y = omega (arith, charge_all-nil f true y)
push_backs-total (p ∷ ps) m f y = omega (
  arith,
  push_backs-total ps (push_back p true m) f y,
  push_back-total f p true y m,
  charge_all-cons f p ps true y,
)

pub pop_fronts-IsCounted : (n : ℕ) (m : PmmState) → IsCounted m → IsCounted (pop_fronts n m).1
unfolding pop_fronts
pop_fronts-IsCounted zero m h = h
pop_fronts-IsCounted (suc n) m h = elim (Option-cases (pop_front false m)) [
  | inl nothing ↦ rw (nothing, pop_fronts) h
  | inr ((p, m'), front) ↦
      rw (front, pop_fronts)
        (pop_fronts-IsCounted n (record m' { nfree = m'.nfree - 1 })
          (omega (
            arith,
            h,
            charge-one p false,
            pop_front-total one false false m front,
            pop_front-total one false true m front,
          )))
]

pub push_backs-IsCounted : (ps : List ℕ) (m : PmmState) → IsCounted m → IsCounted (push_backs ps m)
unfolding push_backs
push_backs-IsCounted [] m h = h
push_backs-IsCounted (p ∷ ps) m h =
    push_backs-IsCounted ps (push_back p true m) (push_back-IsCounted p true m h)

-- What the loop over the frames does to the state.
pub record IsZeroed (ps : List ℕ) (s z : Phys) : Type 0 where
  pub states : (x : ℕ) → (z.pages x).state ≡ (if contains x ps then zeroed else (s.pages x).state)
  pub clears : (x : ℕ) → z.clear x ≡ (contains x ps || s.clear x)

pub zero_pages_of-IsZeroed : (ps : List ℕ) (s : Phys) → IsZeroed ps s (zero_pages_of ps s)
unfolding zero_pages_of zero_page
zero_pages_of-IsZeroed [] s = record { states = λ x. refl; clears = λ x. refl }
zero_pages_of-IsZeroed (p ∷ ps) s =
    let z = zero_page s p in
    let h =
      zero_pages_of-IsZeroed ps
        (record z { pages = assign_at z.pages p (record (z.pages p) { state = zeroed }) }) in
    record { states = λ x. ground (arith, h.states x); clears = λ x. ground (arith, h.clears x) }

pub contains-at_least : (x : ℕ) (ps : List ℕ) → contains x ps ≡ true → 1 ≤ sum (at x) ps
contains-at_least x [] h = cc
contains-at_least x (p ∷ ps) h = ground (arith, contains-at_least x ps)

pub contains-not : (x : ℕ) (ps : List ℕ) → contains x ps ≡ false → sum (at x) ps ≡ 0
contains-not x [] h = refl
contains-not x (p ∷ ps) h = ground (arith, contains-not x ps)

pub sum-one : (ps : List ℕ) → sum one ps ≡ length ps
sum-one [] = refl
sum-one (p ∷ ps) = omega (arith, sum-one ps)

pub given-found : (state : PageState) → 1 ≤ waits false state → given state ≡ 0
given-found state h = ground arith

pub kinds : (state : PageState) → waits false state + waits true state ≤ 1
kinds state = ground arith
