-- ===== src/Mem/Phys/Totals.antt =====
-- kernel/src/mem/phys.rs: what frames the lists and caches hold, as sums of a weight over them, and
-- what each move of a frame does to the sums.
use roanix.Prelude.{
  ℕ, zero, suc, ◌+◌, ◌≡◌, refl, Bool, true, false, not, some, List, [], ◌∷◌, ◌++◌, get_elem?, set,
  arith,
}
use roanix.Mem.Phys.Queues.{
  PageCache, PmmState, Pool, slots, with_slots, pop, push, pop_either, queue, with_queue, pop_front,
  push_front, push_back, front_either,
}

abbrev pub sum : (ℕ → ℕ) → List ℕ → ℕ
sum f [] = 0
sum f (p ∷ ps) = f p + sum f ps

-- The weight of an entry among the frames of a kind.
abbrev pub charge : (ℕ → ℕ) → ℕ → Bool → Bool → ℕ
charge f p true true = f p
charge f p true false = 0
charge f p false true = 0
charge f p false false = f p

abbrev pub pmm_total : (ℕ → ℕ) → Bool → PmmState → ℕ
pmm_total f true m = sum f m.zeros
pmm_total f false m = sum f m.free

abbrev pub cache_total : (ℕ → ℕ) → Bool → PageCache → ℕ
cache_total f true c = sum f c.zeros
cache_total f false c = sum f c.dirty

abbrev pub caches_total : (ℕ → ℕ) → Bool → List PageCache → ℕ
caches_total f z [] = 0
caches_total f z (c ∷ cs) = cache_total f z c + caches_total f z cs

abbrev pub total : (ℕ → ℕ) → Bool → Pool → ℕ
total f z q = pmm_total f z q.pmm + caches_total f z q.caches

abbrev pub one : ℕ → ℕ
one p = 1

-- The allocator's counter is the number of frames in its lists.
abbrev pub IsCounted : PmmState → Type 0
IsCounted m = pmm_total one false m + pmm_total one true m ≡ m.nfree

pub charge-one : (p : ℕ) (z : Bool) → charge one p z false + charge one p z true ≡ 1
charge-one p true = refl
charge-one p false = refl

pub sum-append : (f : ℕ → ℕ) (xs ys : List ℕ) → sum f (xs ++ ys) ≡ sum f xs + sum f ys
sum-append f [] ys = omega arith
sum-append f (x ∷ xs) ys = omega (arith, sum-append f xs ys)

module _ (f : ℕ → ℕ) where
  pub pop-total :
      (z y : Bool) (c : PageCache) {p : ℕ} {c' : PageCache}
      → pop z c ≡ some (p, c')
      → cache_total f y c ≡ charge f p z y + cache_total f y c'
  unfolding pop slots with_slots
  pop-total true true c e = ground arith
  pop-total true false c e = ground arith
  pop-total false true c e = ground arith
  pop-total false false c e = ground arith

  pub push-total :
      (p : ℕ) (z y : Bool) (c : PageCache) {c' : PageCache}
      → push p z c ≡ some c'
      → cache_total f y c' ≡ charge f p z y + cache_total f y c
  unfolding push slots with_slots
  push-total p true true c e = ground arith
  push-total p true false c e = ground arith
  push-total p false true c e = ground arith
  push-total p false false c e = ground arith

  pub pop_either-total :
      (want y : Bool) (c : PageCache) {p : ℕ} {z : Bool} {c' : PageCache}
      → pop_either want c ≡ some ((p, z), c')
      → cache_total f y c ≡ charge f p z y + cache_total f y c'
  unfolding pop_either
  pop_either-total want y c {p} {z} {c'} e =
      ground
        (arith, pop-total want y c {p = p} {c' = c'}, pop-total (not want) y c {p = p} {c' = c'})

  pub pop_front-total :
      (z y : Bool) (m : PmmState) {p : ℕ} {m' : PmmState}
      → pop_front z m ≡ some (p, m')
      → (pmm_total f y m ≡ charge f p z y + pmm_total f y m') × (m'.nfree ≡ m.nfree)
  unfolding pop_front queue with_queue
  pop_front-total true true m e = ground arith
  pop_front-total true false m e = ground arith
  pop_front-total false true m e = ground arith
  pop_front-total false false m e = ground arith

  pub front_either-total :
      (want y : Bool) (m : PmmState) {p : ℕ} {z : Bool} {m' : PmmState}
      → front_either want m ≡ some ((p, z), m')
      → (pmm_total f y m ≡ charge f p z y + pmm_total f y m') × (m'.nfree ≡ m.nfree)
  unfolding front_either
  front_either-total want y m {p} {z} {m'} e = ground (
    arith,
    pop_front-total want y m {p = p} {m' = m'},
    pop_front-total (not want) y m {p = p} {m' = m'},
  )

  pub push_front-total :
      (p : ℕ) (z y : Bool) (m : PmmState)
      → (pmm_total f y (push_front p z m) ≡ charge f p z y + pmm_total f y m)
        × ((push_front p z m).nfree ≡ m.nfree)
  unfolding push_front queue with_queue
  push_front-total p true true m = omega arith
  push_front-total p true false m = omega arith
  push_front-total p false true m = omega arith
  push_front-total p false false m = omega arith

  pub push_back-total :
      (p : ℕ) (z y : Bool) (m : PmmState)
      → (pmm_total f y (push_back p z m) ≡ charge f p z y + pmm_total f y m)
        × ((push_back p z m).nfree ≡ m.nfree + 1)
  unfolding push_back queue with_queue
  push_back-total p true true m = omega (arith, sum-append f m.zeros (p ∷ []))
  push_back-total p true false m = omega arith
  push_back-total p false true m = omega arith
  push_back-total p false false m = omega (arith, sum-append f m.free (p ∷ []))

  pub set-total :
      (y : Bool) (cs : List PageCache) (i : ℕ) (c' : PageCache) {c : PageCache}
      → get_elem? cs i ≡ some c
      → caches_total f y (set cs i c') + cache_total f y c
        ≡ caches_total f y cs + cache_total f y c'
  set-total y [] i c' e = cc
  set-total y (b ∷ cs) zero c' e = ground arith
  set-total y (b ∷ cs) (suc i) c' {c} e = omega (arith, set-total y cs i c' {c = c} e)

pub pmm_total-count :
    (f : ℕ → ℕ) (y : Bool) (m : PmmState) (n : ℕ)
    → pmm_total f y (record m { nfree = n }) ≡ pmm_total f y m
pmm_total-count f true m n = refl
pmm_total-count f false m n = refl
