-- ===== src/Mem/Phys/Counting.antt =====
-- kernel/src/mem/phys.rs: the counter of the allocator's lists.
use roanix.Prelude.{
  ℕ, zero, suc, ◌+◌, ◌-◌, ◌≡◌, inl, inr, subst, Bool, true, false, Option, none, some, List, [],
  ◌∷◌, get_elem?, arith, Option-cases,
}
use roanix.Mem.PhysSeg.{Segment}
use roanix.Mem.Reserve.{Access, denied, single, fill}
use roanix.Mem.Phys.Queues.{
  PageCache, PmmState, Pool, Entry, push, pop_either, front_either, push_back, page_by_index,
  taken_from, pop_cache, refilled, refill_round, refill_rounds, refill_cache, stolen_from,
  steal_cached_page, or_else, take_page, page_cache_refill,
}
use roanix.Mem.Phys.Queues.Giving.{
  push_all, spill, spilled_into, put_cache, put_page, drain_slots, drain_caches, drain_page_caches,
}
use roanix.Mem.Phys.Totals.{
  one, IsCounted, charge-one, front_either-total, push_front-total, push_back-total,
}

pub push_back-IsCounted :
    (p : ℕ) (z : Bool) (m : PmmState) → IsCounted m → IsCounted (push_back p z m)
push_back-IsCounted p z m h =
    omega
      (arith, h, charge-one p z, push_back-total one p z false m, push_back-total one p z true m)

taken_from-pmm :
    (q : Pool) (cpu : ℕ) (o : Option (Entry × PageCache)) → (taken_from q cpu o).1.pmm ≡ q.pmm
unfolding taken_from
taken_from-pmm q cpu o = ground arith

pop_cache-pmm : (want : Bool) (cpu : ℕ) (q : Pool) → (pop_cache want cpu q).1.pmm ≡ q.pmm
unfolding pop_cache
pop_cache-pmm want cpu q =
    ground (arith, λ (c : PageCache). taken_from-pmm q cpu (pop_either want c))

steal_cached_page-pmm :
    (want : Bool) (cpu : ℕ) (q : Pool) → (steal_cached_page want cpu q).1.pmm ≡ q.pmm
unfolding steal_cached_page stolen_from
steal_cached_page-pmm want cpu q = ground arith

refilled-IsCounted :
    (go : PmmState × PageCache → PmmState × PageCache) (want : Bool) (m : PmmState) (c : PageCache)
    → ((s : PmmState × PageCache) → IsCounted s.0 → IsCounted (go s).0)
    → IsCounted m
    → IsCounted (refilled go (m, c) (front_either want m)).0
unfolding refilled
refilled-IsCounted go want m c keep h = elim (Option-cases (front_either want m)) [
  | inl nothing ↦ rw (nothing, refilled) h
  | inr (((p, z), m'), front) ↦ elim (Option-cases (push p z c)) [
    | inl full ↦
        rw (front, refilled, full)
          (omega (
            arith,
            h,
            charge-one p z,
            front_either-total one want true m front,
            front_either-total one want false m front,
            push_front-total one p z true (record m' { nfree = m'.nfree - 1 + 1 }),
            push_front-total one p z false (record m' { nfree = m'.nfree - 1 + 1 }),
          ))
    | inr (c', pushed) ↦
        rw (front, refilled, pushed)
          (keep (record m' { nfree = m'.nfree - 1 }, c')
            (omega (
              arith,
              h,
              charge-one p z,
              front_either-total one want true m front,
              front_either-total one want false m front,
            )))
  ]
]

refill_round-IsCounted :
    (a : Access) (want : Bool) (again : PmmState × PageCache → PmmState × PageCache)
    (s : PmmState × PageCache)
    → ((t : PmmState × PageCache) → IsCounted t.0 → IsCounted (again t).0)
    → IsCounted s.0
    → IsCounted (refill_round a want again s).0
unfolding refill_round
refill_round-IsCounted denied want again s keep h = h
refill_round-IsCounted single want again (m, c) keep h =
    refilled-IsCounted (λ t. t) want m c (λ t k. k) h
refill_round-IsCounted fill want again (m, c) keep h = refilled-IsCounted again want m c keep h

refill_rounds-IsCounted :
    (n : ℕ) (want : Bool) (allowed : ℕ → Access) (s : PmmState × PageCache)
    → IsCounted s.0
    → IsCounted (refill_rounds n want allowed s).0
unfolding refill_rounds
refill_rounds-IsCounted zero want allowed s h = h
refill_rounds-IsCounted (suc n) want allowed s h =
    refill_round-IsCounted (allowed s.0.nfree) want (refill_rounds n want allowed) s
      (refill_rounds-IsCounted n want allowed) h

refill_cache-IsCounted :
    (want : Bool) (allowed : ℕ → Access) (cpu : ℕ) (q : Pool)
    → IsCounted q.pmm
    → IsCounted (refill_cache want allowed cpu q).pmm
unfolding refill_cache
refill_cache-IsCounted want allowed cpu q h = elim (Option-cases (get_elem? q.caches cpu)) [
  | inl nothing ↦ rw (nothing, refill_cache) h
  | inr (c, at) ↦
      rw (at, refill_cache) (refill_rounds-IsCounted page_cache_refill want allowed (q.pmm, c) h)
]

or_else-IsCounted :
    (s : Option Entry × Pool) (again : Pool → Option Entry × Pool)
    → IsCounted s.1.pmm
    → ((r : Pool) → IsCounted r.pmm → IsCounted (again r).1.pmm)
    → IsCounted (or_else s again).1.pmm
unfolding or_else
or_else-IsCounted (some e, q) again h keep = h
or_else-IsCounted (none, q) again h keep = keep q h

pop_cache-IsCounted :
    (want : Bool) (cpu : ℕ) (q : Pool) → IsCounted q.pmm → IsCounted (pop_cache want cpu q).1.pmm
pop_cache-IsCounted want cpu q h = rw (pop_cache-pmm want cpu q) h

pub take_page-IsCounted :
    (want : Bool) (allowed : ℕ → Access) (cpu : ℕ) (q : Pool)
    → IsCounted q.pmm
    → IsCounted (take_page want allowed cpu q).1.pmm
unfolding take_page
take_page-IsCounted want allowed cpu q h =
    or_else-IsCounted
      (or_else (pop_cache want cpu q) (λ r. pop_cache want cpu (refill_cache want allowed cpu r)))
      (steal_cached_page want cpu)
      (or_else-IsCounted (pop_cache want cpu q)
        (λ r. pop_cache want cpu (refill_cache want allowed cpu r))
        (pop_cache-IsCounted want cpu q h)
        (λ r k.
          pop_cache-IsCounted want cpu (refill_cache want allowed cpu r)
            (refill_cache-IsCounted want allowed cpu r k)))
      (λ r k. rw (steal_cached_page-pmm want cpu r) k)

-- What holds of the lists that a call returns, if it returns.
abbrev Lists : Option PmmState → Type 0
Lists none = Unit {0}
Lists (some m) = IsCounted m

abbrev CachedLists : Option (PmmState × PageCache) → Type 0
CachedLists none = Unit {0}
CachedLists (some (m, c)) = IsCounted m

abbrev PoolLists : Option Pool → Type 0
PoolLists none = Unit {0}
PoolLists (some q) = IsCounted q.pmm

push_all-Lists :
    (segments : List Segment) (ps : List ℕ) (z : Bool) (m : PmmState)
    → IsCounted m
    → Lists (push_all segments ps z m)
unfolding push_all
push_all-Lists segments [] z m h = h
push_all-Lists segments (p ∷ ps) z m h = elim (Option-cases (page_by_index segments p)) [
  | inl lost ↦ rw (lost, push_all) tt
  | inr (q, found) ↦
      rw (found, push_all)
        (push_all-Lists segments ps z (push_back q z m) (push_back-IsCounted q z m h))
]

spilled_into-CachedLists :
    (segments : List Segment) (p : ℕ) (z : Bool) (m : PmmState) (ps : List ℕ) (rest : PageCache)
    → IsCounted m
    → CachedLists (spilled_into segments p z m (ps, rest))
unfolding spilled_into
spilled_into-CachedLists segments p z m ps rest h = elim (Option-cases (push p z rest)) [
  | inl full ↦ rw (full, spilled_into) tt
  | inr (c, pushed) ↦ elim (Option-cases (push_all segments ps z m)) [
    | inl lost ↦ rw (pushed, spilled_into, lost) tt
    | inr (m', all) ↦
        rw (pushed, spilled_into, all) (subst Lists all (push_all-Lists segments ps z m h))
  ]
]

put_cache-CachedLists :
    (segments : List Segment) (p : ℕ) (z : Bool) (m : PmmState) (c : PageCache)
    → IsCounted m
    → CachedLists (put_cache segments p z (m, c))
unfolding put_cache
put_cache-CachedLists segments p z m c h = elim (Option-cases (push p z c)) [
  | inl full ↦
      rw (full, put_cache)
        (spilled_into-CachedLists segments p z m (spill page_cache_refill z c).0
          (spill page_cache_refill z c).1 h)
  | inr (c', pushed) ↦ rw (pushed, put_cache) h
]

put_page-PoolLists :
    (p : ℕ) (z : Bool) (cpu : ℕ) (q : Pool) → IsCounted q.pmm → PoolLists (put_page p z cpu q)
unfolding put_page
put_page-PoolLists p z cpu q h = elim (Option-cases (get_elem? q.caches cpu)) [
  | inl nothing ↦ rw (nothing, put_page) tt
  | inr (c, at) ↦ elim (Option-cases (put_cache q.segments p z (q.pmm, c))) [
    | inl stopped ↦ rw (at, put_page, stopped) tt
    | inr ((m, c'), put) ↦
        rw (at, put_page, put)
          (subst CachedLists put (put_cache-CachedLists q.segments p z q.pmm c h))
  ]
]

pub put_page-IsCounted :
    (p : ℕ) (z : Bool) (cpu : ℕ) (q : Pool) {q' : Pool}
    → put_page p z cpu q ≡ some q'
    → IsCounted q.pmm
    → IsCounted q'.pmm
put_page-IsCounted p z cpu q e h = subst PoolLists e (put_page-PoolLists p z cpu q h)

drain_slots-IsCounted :
    (segments : List Segment) (z : Bool) (ps : List ℕ) (m : PmmState)
    → IsCounted m
    → IsCounted (drain_slots segments z ps m)
unfolding drain_slots
drain_slots-IsCounted segments z [] m h = h
drain_slots-IsCounted segments z (p ∷ ps) m h = elim (Option-cases (page_by_index segments p)) [
  | inl lost ↦ rw (lost, drain_slots) (drain_slots-IsCounted segments z ps m h)
  | inr (q, found) ↦
      rw (found, drain_slots)
        (drain_slots-IsCounted segments z ps (push_back q z m) (push_back-IsCounted q z m h))
]

drain_caches-IsCounted :
    (segments : List Segment) (cs : List PageCache) (m : PmmState)
    → IsCounted m
    → IsCounted (drain_caches segments cs m)
unfolding drain_caches
drain_caches-IsCounted segments [] m h = h
drain_caches-IsCounted segments (c ∷ cs) m h =
    drain_caches-IsCounted segments cs
      (drain_slots segments true c.zeros (drain_slots segments false c.dirty m))
      (drain_slots-IsCounted segments true c.zeros (drain_slots segments false c.dirty m)
        (drain_slots-IsCounted segments false c.dirty m h))

pub drain_page_caches-IsCounted : (q : Pool) → IsCounted q.pmm → IsCounted (drain_page_caches q).pmm
unfolding drain_page_caches
drain_page_caches-IsCounted q h = drain_caches-IsCounted q.segments q.caches q.pmm h
