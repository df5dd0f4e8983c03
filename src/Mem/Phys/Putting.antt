-- ===== src/Mem/Phys/Putting.antt =====
-- kernel/src/mem/phys.rs: a frame that is put into the pool, and caches that are drained.
use roanix.Prelude.{
  ℕ, zero, suc, ◌+◌, ◌≤◌, ◌<◌, ◌≡◌, inl, inr, refl, sym, ap, ◌∙◌, Bool, true, false, none, some,
  List, [], ◌∷◌, length, get_elem?, set, take, drop, take-append-drop, length-drop, arith,
  Option-cases,
}
use roanix.Mem.PhysSeg.{Segment}
use roanix.Mem.Phys.Queues.{
  PageCache, PmmState, Pool, slots, with_slots, pop, push, push_back, page_cache_refill,
  page_cache_capacity,
}
use roanix.Mem.Phys.Queues.Giving.{spill, push_all, spilled_into, put_cache, put_page}
use roanix.Mem.Phys.Totals.{
  sum, charge, pmm_total, cache_total, caches_total, total, sum-append, push-total, push_back-total,
  set-total,
}
use roanix.Mem.Phys.Taking.Popping.{unknown, IsKnown, page_by_index-known}

-- The weight of several frames of a kind.
abbrev pub charge_all : (ℕ → ℕ) → List ℕ → Bool → Bool → ℕ
charge_all f ps true true = sum f ps
charge_all f ps true false = 0
charge_all f ps false true = 0
charge_all f ps false false = sum f ps

spill-dirty :
    (n : ℕ) (ds zs : List ℕ)
    → spill n false (record { dirty = ds; zeros = zs })
      ≡ (take n ds, record { dirty = drop n ds; zeros = zs })
unfolding spill pop slots with_slots
spill-dirty zero ds zs = refl
spill-dirty (suc n) [] zs = refl
spill-dirty (suc n) (p ∷ ds) zs = rw (spill-dirty n ds zs)

spill-zeros :
    (n : ℕ) (ds zs : List ℕ)
    → spill n true (record { dirty = ds; zeros = zs })
      ≡ (take n zs, record { dirty = ds; zeros = drop n zs })
unfolding spill pop slots with_slots
spill-zeros zero ds zs = refl
spill-zeros (suc n) ds [] = refl
spill-zeros (suc n) ds (p ∷ zs) = rw (spill-zeros n ds zs)

spill_lem :
    (n : ℕ) (z : Bool) (c : PageCache)
    → spill n z c ≡ (take n (slots z c), with_slots z (drop n (slots z c)) c)
unfolding slots with_slots
spill_lem n true c = spill-zeros n c.dirty c.zeros
spill_lem n false c = spill-dirty n c.dirty c.zeros

sum-take-drop : (f : ℕ → ℕ) (n : ℕ) (xs : List ℕ) → sum f (take n xs) + sum f (drop n xs) ≡ sum f xs
sum-take-drop f n xs =
    sym (sum-append f (take n xs) (drop n xs)) ∙ ap (sum f) (take-append-drop n xs)

module _ (f : ℕ → ℕ) where
  kept-total :
      (n : ℕ) (z y : Bool) (c : PageCache)
      → charge_all f (take n (slots z c)) z y
          + cache_total f y (with_slots z (drop n (slots z c)) c)
        ≡ cache_total f y c
  unfolding slots with_slots
  kept-total n true true c = sum-take-drop f n c.zeros
  kept-total n true false c = omega arith
  kept-total n false true c = omega arith
  kept-total n false false c = sum-take-drop f n c.dirty

  pub charge_all-nil : (z y : Bool) → charge_all f [] z y ≡ 0
  charge_all-nil true true = refl
  charge_all-nil true false = refl
  charge_all-nil false true = refl
  charge_all-nil false false = refl

  pub charge_all-cons :
      (p : ℕ) (ps : List ℕ) (z y : Bool)
      → charge_all f (p ∷ ps) z y ≡ charge f p z y + charge_all f ps z y
  charge_all-cons p ps true true = refl
  charge_all-cons p ps true false = refl
  charge_all-cons p ps false true = refl
  charge_all-cons p ps false false = refl

-- The frames that are pushed back come into the list and are counted.
push_all-total :
    (segments : List Segment) (ps : List ℕ) (z : Bool) (m : PmmState)
    → sum (unknown segments) ps ≡ 0
    → (m' : PmmState) × (push_all segments ps z m ≡ some m')
      × ((f : ℕ → ℕ) (y : Bool) → pmm_total f y m' ≡ charge_all f ps z y + pmm_total f y m)
unfolding push_all
push_all-total segments [] z m h = (m, refl, λ f y. omega (arith, charge_all-nil f z y))
push_all-total segments (p ∷ ps) z m h =
    let (m', e, sums) = push_all-total segments ps z (push_back p z m) (omega (arith, h)) in
    (
      m',
      rw (page_by_index-known segments p (omega (arith, h)), push_all) e,
      λ f y. omega (arith, sums f y, push_back-total f p z y m, charge_all-cons f p ps z y),
    )

slots-with_slots : (z : Bool) (xs : List ℕ) (c : PageCache) → slots z (with_slots z xs c) ≡ xs
unfolding slots with_slots
slots-with_slots true xs c = refl
slots-with_slots false xs c = refl

push-room :
    (p : ℕ) (z : Bool) (c : PageCache)
    → length (slots z c) < page_cache_capacity
    → (c' : PageCache) × (push p z c ≡ some c')
unfolding push
push-room p z c h = (with_slots z (p ∷ slots z c) c, ground arith)

push-full :
    (p : ℕ) (z : Bool) (c : PageCache)
    → push p z c ≡ none
    → length (slots z c) ≡ page_cache_capacity
unfolding push
push-full p z c e = ground arith

sum-take-zero :
    (f : ℕ → ℕ) (n : ℕ) (z : Bool) (c : PageCache)
    → cache_total f z c ≡ 0
    → sum f (take n (slots z c)) ≡ 0
unfolding slots
sum-take-zero f n true c h = omega (arith, sum-take-drop f n c.zeros)
sum-take-zero f n false c h = omega (arith, sum-take-drop f n c.dirty)

spilled_into-spills :
    (segments : List Segment) (p : ℕ) (z : Bool) (m : PmmState) (ps : List ℕ) (rest : PageCache)
    {m' : PmmState} {c' : PageCache}
    → push p z rest ≡ some c'
    → push_all segments ps z m ≡ some m'
    → spilled_into segments p z m (ps, rest) ≡ some (m', c')
unfolding spilled_into
spilled_into-spills segments p z m ps rest pushed spilled = rw (pushed, spilled_into, spilled) refl

put_cache-spills :
    (segments : List Segment) (p : ℕ) (z : Bool) (m : PmmState) (c : PageCache) {m' : PmmState}
    {c' : PageCache}
    → push p z c ≡ none
    → push p z (with_slots z (drop page_cache_refill (slots z c)) c) ≡ some c'
    → push_all segments (take page_cache_refill (slots z c)) z m ≡ some m'
    → put_cache segments p z (m, c) ≡ some (m', c')
unfolding put_cache
put_cache-spills segments p z m c full pushed spilled =
    rw (full, put_cache)
      (ap (spilled_into segments p z m) (spill_lem page_cache_refill z c)
        ∙ spilled_into-spills segments p z m (take page_cache_refill (slots z c))
            (with_slots z (drop page_cache_refill (slots z c)) c) pushed spilled)

-- A frame is put into a cache, which spills some of its frames where it is full.
put_cache-total :
    (segments : List Segment) (p : ℕ) (z : Bool) (m : PmmState) (c : PageCache)
    → cache_total (unknown segments) z c ≡ 0
    → (m' : PmmState) × (c' : PageCache) × (put_cache segments p z (m, c) ≡ some (m', c'))
      × ((f : ℕ → ℕ) (y : Bool)
          → pmm_total f y m' + cache_total f y c'
            ≡ charge f p z y + (pmm_total f y m + cache_total f y c))
unfolding put_cache spilled_into
put_cache-total segments p z m c known = elim (Option-cases (push p z c)) [
  | inr (c', pushed) ↦
      (m, c', rw (pushed, put_cache) refl, λ f y. omega (arith, push-total f p z y c pushed))
  | inl full ↦
      let rest = with_slots z (drop page_cache_refill (slots z c)) c in
      let (c', pushed) = push-room p z rest (
        rw (slots-with_slots z (drop page_cache_refill (slots z c)) c)
          (omega (arith, push-full p z c full, length-drop page_cache_refill (slots z c)))) in
      let (m', spilled, sums) =
        push_all-total segments (take page_cache_refill (slots z c)) z m
          (sum-take-zero (unknown segments) page_cache_refill z c known) in
      (
        m',
        c',
        put_cache-spills segments p z m c full pushed spilled,
        λ f y.
            omega (
              arith,
              push-total f p z y rest pushed,
              sums f y,
              kept-total f page_cache_refill z y c,
            ),
      )
]

caches_total-ge :
    (f : ℕ → ℕ) (y : Bool) (cs : List PageCache) (i : ℕ) {c : PageCache}
    → get_elem? cs i ≡ some c
    → cache_total f y c ≤ caches_total f y cs
caches_total-ge f y [] i e = cc
caches_total-ge f y (b ∷ cs) zero e = ground arith
caches_total-ge f y (b ∷ cs) (suc i) {c} e = omega (arith, caches_total-ge f y cs i {c = c} e)

put_page-puts :
    (p : ℕ) (z : Bool) (cpu : ℕ) (q : Pool) {c c' : PageCache} {m' : PmmState}
    → get_elem? q.caches cpu ≡ some c
    → put_cache q.segments p z (q.pmm, c) ≡ some (m', c')
    → put_page p z cpu q ≡ some (record q { pmm = m'; caches = set q.caches cpu c' })
unfolding put_page
put_page-puts p z cpu q at e = rw (at, put_page, e) refl

-- No assertion fails where the CPU has a cache.
pub put_page-IsPut :
    (p : ℕ) (z : Bool) (cpu : ℕ) (q : Pool) {c : PageCache}
    → IsKnown q
    → get_elem? q.caches cpu ≡ some c
    → (q' : Pool) × (put_page p z cpu q ≡ some q')
      × (q'.segments ≡ q.segments)
      × ((f : ℕ → ℕ) (y : Bool) → total f y q' ≡ charge f p z y + total f y q)
unfolding put_page
put_page-IsPut p z cpu q {c} known at =
    let (m', c', e, sums) =
      put_cache-total q.segments p z q.pmm c
        (omega (arith, known z, caches_total-ge (unknown q.segments) z q.caches cpu at)) in
    (
      record q { pmm = m'; caches = set q.caches cpu c' },
      put_page-puts p z cpu q at e,
      refl,
      λ f y. omega (arith, sums f y, set-total f y q.caches cpu c' at),
    )
