-- ===== src/Mem/Phys/Queues/Giving.antt =====
-- kernel/src/mem/phys.rs: put_page and drain_page_caches, which give frames to the caches and lists.
use roanix.Prelude.{
  ℕ, zero, suc, Bool, true, false, Option, none, some, List, [], ◌∷◌, get_elem?, set,
}
use roanix.Mem.PhysSeg.{Segment}
use roanix.Mem.Phys.Queues.{
  page_cache_refill, PageCache, PmmState, Pool, pop, push, push_back, page_by_index,
}

-- The loop that spills a full cache.
unfoldable pub spill : ℕ → Bool → PageCache → List ℕ × PageCache
unfolding pop
spill zero z c = ([], c)
spill (suc n) z c = elim (pop z c) [
  | none ↦ ([], c)
  | some (p, c') ↦ let rest = spill n z c' in (p ∷ rest.0, rest.1)
]

unfoldable pub push_all : List Segment → List ℕ → Bool → PmmState → Option PmmState
unfolding page_by_index push_back
push_all segments [] z m = some m
push_all segments (p ∷ ps) z m = elim (page_by_index segments p) [
  | none ↦ none
  | some q ↦ push_all segments ps z (push_back q z m)
]

unfoldable pub spilled_into :
    List Segment → ℕ → Bool → PmmState → List ℕ × PageCache → Option (PmmState × PageCache)
unfolding push push_all
spilled_into segments p z m (spilled, rest) = elim (push p z rest) [
  | none ↦ none
  | some c ↦ elim (push_all segments spilled z m) [ none ↦ none | some m' ↦ some (m', c) ]
]

-- The frame that free_page_inner puts into a cache; none is a failed assertion.
unfoldable pub put_cache :
    List Segment → ℕ → Bool → PmmState × PageCache → Option (PmmState × PageCache)
unfolding push spill spilled_into
put_cache segments p z (m, c) = elim (push p z c) [
  | some c' ↦ some (m, c')
  | none ↦ spilled_into segments p z m (spill page_cache_refill z c)
]

unfoldable pub put_page : ℕ → Bool → ℕ → Pool → Option Pool
unfolding put_cache
put_page p z cpu q = elim (get_elem? q.caches cpu) [
  | none ↦ none
  | some c ↦ elim (put_cache q.segments p z (q.pmm, c)) [
    | none ↦ none
    | some (m, c') ↦ some (record q { pmm = m; caches = set q.caches cpu c' })
  ]
]

-- The loop of drain_page_caches over one cache's stack, which is empty afterwards.
unfoldable pub drain_slots : List Segment → Bool → List ℕ → PmmState → PmmState
unfolding page_by_index push_back
drain_slots segments z [] m = m
drain_slots segments z (p ∷ ps) m =
    drain_slots segments z ps
      (elim (page_by_index segments p) [ none ↦ m | some q ↦ push_back q z m ])

unfoldable pub drain_caches : List Segment → List PageCache → PmmState → PmmState
unfolding drain_slots
drain_caches segments [] m = m
drain_caches segments (c ∷ cs) m =
    drain_caches segments cs
      (drain_slots segments true c.zeros (drain_slots segments false c.dirty m))

unfoldable pub emptied : List PageCache → List PageCache
emptied [] = []
emptied (c ∷ cs) = record { dirty = []; zeros = [] } ∷ emptied cs

unfoldable pub drain_page_caches : Pool → Pool
unfolding drain_caches emptied
drain_page_caches q = record q {
  pmm = drain_caches q.segments q.caches q.pmm;
  caches = emptied q.caches;
}
