-- ===== src/Mem/Phys/Queues.antt =====
-- kernel/src/mem/phys.rs: where free frames wait, in the lists of the allocator and the caches of
-- CPUs, and how they move. A list holds frame numbers, a cache's arrays are stacks.
pub mod Giving
use roanix.Prelude.{
  ℕ, zero, suc, ◌+◌, ◌-◌, Bool, true, false, not, Option, none, some, List, [], ◌∷◌, ◌++◌, length,
  get_elem?, set, ◌==◌, if◌then◌else◌,
}
use roanix.Mem.PhysSeg.{Segment, lookup}
use roanix.Mem.Reserve.{Access, denied, single, fill}

abbrev pub page_cache_capacity : ℕ
page_cache_capacity = 16

abbrev pub page_cache_refill : ℕ
page_cache_refill = 8

pub record PageCache : Type 0 where
  pub dirty : List ℕ
  pub zeros : List ℕ

pub record PmmState : Type 0 where
  pub free : List ℕ
  pub zeros : List ℕ
  pub nfree : ℕ

-- What the allocator reads of the segments, its lists and the caches of all CPUs.
pub record Pool : Type 0 where
  pub segments : List Segment
  pub pmm : PmmState
  pub caches : List PageCache

-- A frame with whether it is known to hold zeros.
abbrev pub Entry : Type 0
Entry = ℕ × Bool

unfoldable pub slots : Bool → PageCache → List ℕ
slots true c = c.zeros
slots false c = c.dirty

unfoldable pub with_slots : Bool → List ℕ → PageCache → PageCache
with_slots true xs c = record c { zeros = xs }
with_slots false xs c = record c { dirty = xs }

-- `PageCache::pop`
unfoldable pub pop : Bool → PageCache → Option (ℕ × PageCache)
unfolding slots with_slots
pop z c = elim (slots z c) [ [] ↦ none | p ∷ ps ↦ some (p, with_slots z ps c) ]

-- `PageCache::push`, where none is false.
unfoldable pub push : ℕ → Bool → PageCache → Option PageCache
unfolding slots with_slots
push p z c =
    if length (slots z c) == page_cache_capacity
    then none
    else some (with_slots z (p ∷ slots z c) c)

-- A frame of the wanted kind, or else of the other.
unfoldable pub pop_either : Bool → PageCache → Option (Entry × PageCache)
unfolding pop
pop_either want c = elim (pop want c) [
  | some (p, c') ↦ some ((p, want), c')
  | none ↦ elim (pop (not want) c) [ some (p, c') ↦ some ((p, not want), c') | none ↦ none ]
]

unfoldable pub queue : Bool → PmmState → List ℕ
queue true m = m.zeros
queue false m = m.free

unfoldable pub with_queue : Bool → List ℕ → PmmState → PmmState
with_queue true xs m = record m { zeros = xs }
with_queue false xs m = record m { free = xs }

unfoldable pub pop_front : Bool → PmmState → Option (ℕ × PmmState)
unfolding queue with_queue
pop_front z m = elim (queue z m) [ [] ↦ none | p ∷ ps ↦ some (p, with_queue z ps m) ]

unfoldable pub push_front : ℕ → Bool → PmmState → PmmState
unfolding queue with_queue
push_front p z m = with_queue z (p ∷ queue z m) m

-- `push_back` with its count of the frame.
unfoldable pub push_back : ℕ → Bool → PmmState → PmmState
unfolding queue with_queue
push_back p z m = record (with_queue z (queue z m ++ p ∷ []) m) { nfree = m.nfree + 1 }

unfoldable pub front_either : Bool → PmmState → Option (Entry × PmmState)
unfolding pop_front
front_either want m = elim (pop_front want m) [
  | some (p, m') ↦ some ((p, want), m')
  | none ↦ elim (pop_front (not want) m) [ some (p, m') ↦ some ((p, not want), m') | none ↦ none ]
]

-- The frames without one occurrence of `p`.
abbrev pub erase : ℕ → List ℕ → List ℕ
erase p [] = []
erase p (q ∷ qs) = if q == p then qs else q ∷ erase p qs

unfoldable pub page_by_index : List Segment → ℕ → Option ℕ
page_by_index segments pfn = elim (lookup segments pfn) [ none ↦ none | some index ↦ some pfn ]

-- The page of an entry that was popped.
unfoldable pub with_page : List Segment → Entry → Option Entry
unfolding page_by_index
with_page segments (p, z) = elim (page_by_index segments p) [ none ↦ none | some q ↦ some (q, z) ]

unfoldable pub taken_from : Pool → ℕ → Option (Entry × PageCache) → Option Entry × Pool
unfolding with_page
taken_from q cpu none = (none, q)
taken_from q cpu (some (e, c)) = (with_page q.segments e, record q { caches = set q.caches cpu c })

unfoldable pub pop_cache : Bool → ℕ → Pool → Option Entry × Pool
unfolding taken_from
pop_cache want cpu q = elim (get_elem? q.caches cpu) [
  | none ↦ (none, q)
  | some c ↦ taken_from q cpu (pop_either want c)
]

-- A round of refill_cache with the frame that the lists gave.
unfoldable pub refilled :
    (PmmState × PageCache → PmmState × PageCache)
    → PmmState × PageCache
    → Option (Entry × PmmState)
    → PmmState × PageCache
refilled go s none = s
refilled go (m, c) (some ((p, z), m')) = elim (push p z c) [
  | none ↦ (push_front p z (record m' { nfree = m'.nfree - 1 + 1 }), c)
  | some c' ↦ go (record m' { nfree = m'.nfree - 1 }, c')
]

unfoldable pub refill_round :
    Access
    → Bool
    → (PmmState × PageCache → PmmState × PageCache)
    → PmmState × PageCache
    → PmmState × PageCache
unfolding refilled
refill_round denied want again s = s
refill_round single want again s = refilled (λ t. t) s (front_either want s.0)
refill_round fill want again s = refilled again s (front_either want s.0)

unfoldable pub refill_rounds : ℕ → Bool → (ℕ → Access) → PmmState × PageCache → PmmState × PageCache
unfolding refill_round
refill_rounds zero want allowed s = s
refill_rounds (suc n) want allowed s =
    refill_round (allowed s.0.nfree) want (refill_rounds n want allowed) s

unfoldable pub refill_cache : Bool → (ℕ → Access) → ℕ → Pool → Pool
unfolding refill_rounds
refill_cache want allowed cpu q = elim (get_elem? q.caches cpu) [
  | none ↦ q
  | some c ↦
      let s = refill_rounds page_cache_refill want allowed (q.pmm, c) in
      record q { pmm = s.0; caches = set q.caches cpu s.1 }
]

unfoldable pub behind :
    PageCache → Option (Entry × List PageCache) → Option (Entry × List PageCache)
behind c none = none
behind c (some (e, cs)) = some (e, c ∷ cs)

-- The loop of steal_cached_page over the caches from number `i` on.
unfoldable pub steal_from : Bool → ℕ → ℕ → List PageCache → Option (Entry × List PageCache)
unfolding behind
steal_from want local i [] = none
steal_from want local i (c ∷ cs) =
    let others = behind c (steal_from want local (i + 1) cs) in
    if i == local
    then others
    else elim (pop_either want c) [ none ↦ others | some (e, c') ↦ some (e, c' ∷ cs) ]

unfoldable pub stolen_from : Pool → Option (Entry × List PageCache) → Option Entry × Pool
unfolding with_page
stolen_from q none = (none, q)
stolen_from q (some (e, cs)) = (with_page q.segments e, record q { caches = cs })

unfoldable pub steal_cached_page : Bool → ℕ → Pool → Option Entry × Pool
unfolding stolen_from
steal_cached_page want cpu q = stolen_from q (steal_from want cpu 0 q.caches)

-- The second attempt, where the first has found nothing.
unfoldable pub or_else : Option Entry × Pool → (Pool → Option Entry × Pool) → Option Entry × Pool
or_else (some e, q) again = (some e, q)
or_else (none, q) again = again q

unfoldable pub take_page : Bool → (ℕ → Access) → ℕ → Pool → Option Entry × Pool
unfolding or_else
take_page want allowed cpu q =
    or_else
      (or_else (pop_cache want cpu q) (λ r. pop_cache want cpu (refill_cache want allowed cpu r)))
      (steal_cached_page want cpu)
