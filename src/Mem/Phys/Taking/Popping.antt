-- ===== src/Mem/Phys/Taking/Popping.antt =====
-- kernel/src/mem/phys.rs: taking a frame from a CPU's cache.
use roanix.Prelude.{
  ℕ, ◌+◌, ◌≡◌, inl, inr, refl, Bool, true, false, Option, none, some, List, get_elem?, set, arith,
  Option-cases,
}
use roanix.Mem.PhysSeg.{Segment, lookup}
use roanix.Mem.Phys.Queues.{
  PageCache, Pool, Entry, pop_either, page_by_index, with_page, taken_from, pop_cache,
}
use roanix.Mem.Phys.Totals.{charge, total, pop_either-total, set-total}

-- What a fruitful or a vain search leaves, for any weight.
abbrev Left : (ℕ → ℕ) → Bool → Pool → Option Entry → Pool → Type 0
Left f y q none q' = total f y q' ≡ total f y q
Left f y q (some (p, z)) q' = total f y q ≡ charge f p z y + total f y q'

abbrev pub Leaves : Pool → Option Entry × Pool → Type 0
Leaves q (o, q') = (q'.segments ≡ q.segments) × ((f : ℕ → ℕ) (y : Bool) → Left f y q o q')

-- Weighs the frames that no segment holds.
abbrev pub unknown : List Segment → ℕ → ℕ
unknown segments p = elim (lookup segments p) [ none ↦ 1 | some index ↦ 0 ]

abbrev pub IsKnown : Pool → Type 0
IsKnown q = (y : Bool) → total (unknown q.segments) y q ≡ 0

pub page_by_index-known :
    (segments : List Segment) (p : ℕ) → unknown segments p ≡ 0 → page_by_index segments p ≡ some p
unfolding page_by_index
page_by_index-known segments p h = ground arith

with_page-known :
    (segments : List Segment) (p : ℕ) (z : Bool)
    → unknown segments p ≡ 0
    → with_page segments (p, z) ≡ some (p, z)
unfolding with_page page_by_index
with_page-known segments p z h = ground arith

pub charge-same : (f : ℕ → ℕ) (p : ℕ) (z : Bool) → charge f p z z ≡ f p
charge-same f p true = refl
charge-same f p false = refl

-- A frame of a pool is found in the database.
pub with_page-Leaves :
    (q q' : Pool) (e : Entry)
    → IsKnown q
    → Leaves q (some e, q')
    → Leaves q (with_page q.segments e, q')
with_page-Leaves q q' (p, z) known (same, left) = (
  same,
  λ f y.
      rw
        (
          with_page-known q.segments p z (
              omega (
                arith,
                charge-same (unknown q.segments) p z,
                known z,
                left (unknown q.segments) z,
              )),
          Left,
        )
        (left f y),
)

taken_from-Leaves :
    (q : Pool) (cpu : ℕ) (c : PageCache) (want : Bool)
    → get_elem? q.caches cpu ≡ some c
    → IsKnown q
    → Leaves q (taken_from q cpu (pop_either want c))
unfolding taken_from
taken_from-Leaves q cpu c want at known = elim (Option-cases (pop_either want c)) [
  | inl nothing ↦ rw nothing (refl, λ f y. refl)
  | inr (((p, z), c'), popped) ↦ rw popped (
      with_page-Leaves q (record q { caches = set q.caches cpu c' }) (p, z) known
        (
          refl,
          λ f y.
              omega (arith, pop_either-total f want y c popped, set-total f y q.caches cpu c' at),
        ))
]

pub pop_cache-Leaves :
    (want : Bool) (cpu : ℕ) (q : Pool) → IsKnown q → Leaves q (pop_cache want cpu q)
unfolding pop_cache
pop_cache-Leaves want cpu q known = elim (Option-cases (get_elem? q.caches cpu)) [
  | inl nothing ↦ rw (nothing, pop_cache) (refl, λ f y. refl)
  | inr (c, at) ↦ rw (at, pop_cache) (taken_from-Leaves q cpu c want at known)
]
