-- ===== src/Mem/Phys/Taking.antt =====
-- kernel/src/mem/phys.rs: take_page takes one frame and loses none.
pub mod Popping
use roanix.Prelude.{
  ℕ, zero, suc, ◌+◌, ◌-◌, ◌≡◌, inl, inr, refl, subst, ◌∙◌, Bool, true, false, Option, none, some,
  List, [], ◌∷◌, get_elem?, set, ◌==◌, arith, Option-cases, Bool-cases,
}
use roanix.Mem.PhysSeg.{Segment, lookup}
use roanix.Mem.Reserve.{Access, denied, single, fill}
use roanix.Mem.Phys.Queues.{
  PageCache, PmmState, Pool, Entry, push, pop_either, front_either, page_by_index, with_page,
  taken_from, pop_cache, refilled, refill_round, refill_rounds, refill_cache, behind, steal_from,
  stolen_from, steal_cached_page, or_else, take_page, page_cache_refill,
}
use roanix.Mem.Phys.Totals.{
  charge, pmm_total, cache_total, caches_total, total, push-total, pop_either-total,
  front_either-total, push_front-total, set-total, pmm_total-count,
}
use roanix.Mem.Phys.Taking.Popping.{Leaves, unknown, IsKnown, with_page-Leaves, pop_cache-Leaves}

-- The lists and a cache together.
abbrev both : (ℕ → ℕ) → Bool → PmmState × PageCache → ℕ
both f y (m, c) = pmm_total f y m + cache_total f y c

refilled-both :
    (go : PmmState × PageCache → PmmState × PageCache) (want : Bool) (m : PmmState) (c : PageCache)
    → ((s : PmmState × PageCache) (f : ℕ → ℕ) (y : Bool) → both f y (go s) ≡ both f y s)
    → (f : ℕ → ℕ) (y : Bool) → both f y (refilled go (m, c) (front_either want m)) ≡ both f y (m, c)
unfolding refilled
refilled-both go want m c keep f y = elim (Option-cases (front_either want m)) [
  | inl nothing ↦ rw nothing refl
  | inr (((p, z), m'), front) ↦ elim (Option-cases (push p z c)) [
    | inl full ↦
        rw (front, refilled, full)
          (omega (
            arith,
            push_front-total f p z y (record m' { nfree = m'.nfree - 1 + 1 }),
            pmm_total-count f y m' (m'.nfree - 1 + 1),
            front_either-total f want y m front,
          ))
    | inr (c', pushed) ↦
        rw (front, refilled, pushed)
          (keep (record m' { nfree = m'.nfree - 1 }, c') f y
            ∙ omega (
              arith,
              push-total f p z y c pushed,
              pmm_total-count f y m' (m'.nfree - 1),
              front_either-total f want y m front,
            ))
  ]
]

refill_round-both :
    (a : Access) (want : Bool) (again : PmmState × PageCache → PmmState × PageCache)
    (s : PmmState × PageCache)
    → ((t : PmmState × PageCache) (f : ℕ → ℕ) (y : Bool) → both f y (again t) ≡ both f y t)
    → (f : ℕ → ℕ) (y : Bool) → both f y (refill_round a want again s) ≡ both f y s
unfolding refill_round
refill_round-both denied want again s keep f y = refl
refill_round-both single want again (m, c) keep f y =
    refilled-both (λ t. t) want m c (λ t g b. refl) f y
refill_round-both fill want again (m, c) keep f y = refilled-both again want m c keep f y

refill_rounds-both :
    (n : ℕ) (want : Bool) (allowed : ℕ → Access) (s : PmmState × PageCache) (f : ℕ → ℕ) (y : Bool)
    → both f y (refill_rounds n want allowed s) ≡ both f y s
unfolding refill_rounds
refill_rounds-both zero want allowed s f y = refl
refill_rounds-both (suc n) want allowed s f y =
    refill_round-both (allowed s.0.nfree) want (refill_rounds n want allowed) s
      (refill_rounds-both n want allowed) f y

refill_cache-segments :
    (want : Bool) (allowed : ℕ → Access) (cpu : ℕ) (q : Pool)
    → (refill_cache want allowed cpu q).segments ≡ q.segments
unfolding refill_cache
refill_cache-segments want allowed cpu q = ground arith

refill_cache-total :
    (want : Bool) (allowed : ℕ → Access) (cpu : ℕ) (q : Pool) (f : ℕ → ℕ) (y : Bool)
    → total f y (refill_cache want allowed cpu q) ≡ total f y q
unfolding refill_cache
refill_cache-total want allowed cpu q f y = elim (Option-cases (get_elem? q.caches cpu)) [
  | inl nothing ↦ rw (nothing, refill_cache) refl
  | inr (c, at) ↦
      let s = refill_rounds page_cache_refill want allowed (q.pmm, c) in
      rw (at, refill_cache)
        (omega (
          arith,
          refill_rounds-both page_cache_refill want allowed (q.pmm, c) f y,
          set-total f y q.caches cpu s.1 at,
        ))
]

abbrev Stolen : (ℕ → ℕ) → Bool → List PageCache → Option (Entry × List PageCache) → Type 0
Stolen f y cs none = Unit {0}
Stolen f y cs (some ((p, z), cs')) = caches_total f y cs ≡ charge f p z y + caches_total f y cs'

behind-Stolen :
    (f : ℕ → ℕ) (y : Bool) (c : PageCache) (cs : List PageCache)
    (o : Option (Entry × List PageCache))
    → Stolen f y cs o
    → Stolen f y (c ∷ cs) (behind c o)
unfolding behind
behind-Stolen f y c cs none h = tt
behind-Stolen f y c cs (some ((p, z), cs')) h = omega (arith, h)

steal_from-Stolen :
    (f : ℕ → ℕ) (y want : Bool) (local i : ℕ) (cs : List PageCache)
    → Stolen f y cs (steal_from want local i cs)
unfolding steal_from
steal_from-Stolen f y want local i [] = tt
steal_from-Stolen f y want local i (c ∷ cs) =
    let others =
      behind-Stolen f y c cs (steal_from want local (i + 1) cs)
        (steal_from-Stolen f y want local (i + 1) cs) in
    elim (Bool-cases (i == local)) [
      | inl own ↦ rw (own, steal_from) others
      | inr other ↦ elim (Option-cases (pop_either want c)) [
        | inl nothing ↦ rw (other, nothing, steal_from) others
        | inr (((p, z), c'), popped) ↦
            rw (other, popped, steal_from) (omega (arith, pop_either-total f want y c popped))
      ]
    ]

steal_cached_page-Leaves :
    (want : Bool) (cpu : ℕ) (q : Pool) → IsKnown q → Leaves q (steal_cached_page want cpu q)
unfolding steal_cached_page stolen_from
steal_cached_page-Leaves want cpu q known = elim (Option-cases (steal_from want cpu 0 q.caches)) [
  | inl nothing ↦ rw (nothing, stolen_from) (refl, λ f y. refl)
  | inr (((p, z), cs), found) ↦
      rw (found, stolen_from)
        (with_page-Leaves q (record q { caches = cs }) (p, z) known
          (
            refl,
            λ f y. omega (
              arith,
              subst (Stolen f y q.caches) found (steal_from-Stolen f y want cpu 0 q.caches),
            ),
          ))
]

-- A pool with the same frames.
abbrev pub IsMoved : Pool → Pool → Type 0
IsMoved q q' = (q'.segments ≡ q.segments) × ((f : ℕ → ℕ) (y : Bool) → total f y q' ≡ total f y q)

pub IsMoved-IsKnown : (q r : Pool) → IsMoved q r → IsKnown q → IsKnown r
IsMoved-IsKnown q r (same, moved) known y = rw same (moved (unknown q.segments) y ∙ known y)

IsMoved-Leaves : (q r : Pool) (s : Option Entry × Pool) → IsMoved q r → Leaves r s → Leaves q s
IsMoved-Leaves q r (none, t) (same, moved) (kept, left) =
    (kept ∙ same, λ f y. omega (arith, moved f y, left f y))
IsMoved-Leaves q r (some (p, z), t) (same, moved) (kept, left) =
    (kept ∙ same, λ f y. omega (arith, moved f y, left f y))

or_else-Leaves :
    (q : Pool) (s : Option Entry × Pool) (again : Pool → Option Entry × Pool)
    → Leaves q s
    → ((r : Pool) → IsMoved q r → Leaves r (again r))
    → Leaves q (or_else s again)
unfolding or_else
or_else-Leaves q (some e, r) again left then_left = left
or_else-Leaves q (none, r) again left then_left =
    IsMoved-Leaves q r (again r) left (then_left r left)

refill_cache-IsMoved :
    (want : Bool) (allowed : ℕ → Access) (cpu : ℕ) (q : Pool)
    → IsMoved q (refill_cache want allowed cpu q)
refill_cache-IsMoved want allowed cpu q =
    (refill_cache-segments want allowed cpu q, refill_cache-total want allowed cpu q)

-- The frame that `take_page` returns leaves the pool, and all others stay.
pub take_page-Leaves :
    (want : Bool) (allowed : ℕ → Access) (cpu : ℕ) (q : Pool)
    → IsKnown q
    → Leaves q (take_page want allowed cpu q)
unfolding take_page
take_page-Leaves want allowed cpu q known =
    or_else-Leaves q
      (or_else (pop_cache want cpu q) (λ r. pop_cache want cpu (refill_cache want allowed cpu r)))
      (steal_cached_page want cpu)
      (or_else-Leaves q (pop_cache want cpu q)
        (λ r. pop_cache want cpu (refill_cache want allowed cpu r))
        (pop_cache-Leaves want cpu q known)
        (λ r moved.
          let filled = refill_cache-IsMoved want allowed cpu r in
          IsMoved-Leaves r (refill_cache want allowed cpu r)
            (pop_cache want cpu (refill_cache want allowed cpu r)) filled
            (pop_cache-Leaves want cpu (refill_cache want allowed cpu r) (
              IsMoved-IsKnown r (refill_cache want allowed cpu r) filled
                (IsMoved-IsKnown q r moved known)))))
      (λ r moved. steal_cached_page-Leaves want cpu r (IsMoved-IsKnown q r moved known))

-- A pool that a frame has left.
pub Leaves-IsKnown : (q q' : Pool) (e : Entry) → IsKnown q → Leaves q (some e, q') → IsKnown q'
Leaves-IsKnown q q' (p, z) known (same, left) y =
    rw same (omega (arith, left (unknown q.segments) y, known y))
