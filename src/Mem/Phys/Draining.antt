-- ===== src/Mem/Phys/Draining.antt =====
-- kernel/src/mem/phys.rs: drain_page_caches.
use roanix.Prelude.{ℕ, ◌+◌, ◌≡◌, refl, Bool, true, false, List, [], ◌∷◌, arith}
use roanix.Mem.PhysSeg.{Segment}
use roanix.Mem.Phys.Queues.{PageCache, PmmState, Pool, push_back}
use roanix.Mem.Phys.Queues.Giving.{drain_slots, drain_caches, emptied, drain_page_caches}
use roanix.Mem.Phys.Totals.{sum, pmm_total, cache_total, caches_total, push_back-total}
use roanix.Mem.Phys.Taking.{IsMoved}
use roanix.Mem.Phys.Taking.Popping.{unknown, IsKnown, page_by_index-known}
use roanix.Mem.Phys.Putting.{charge_all, charge_all-nil, charge_all-cons}

drain_slots-total :
    (segments : List Segment) (z : Bool) (ps : List ℕ) (m : PmmState)
    → sum (unknown segments) ps ≡ 0
    → (f : ℕ → ℕ) (y : Bool)
    → pmm_total f y (drain_slots segments z ps m) ≡ charge_all f ps z y + pmm_total f y m
unfolding drain_slots
drain_slots-total segments z [] m h f y = omega (arith, charge_all-nil f z y)
drain_slots-total segments z (p ∷ ps) m h f y =
    rw (page_by_index-known segments p (omega (arith, h)), drain_slots)
      (omega (
        arith,
        drain_slots-total segments z ps (push_back p z m) (omega (arith, h)) f y,
        push_back-total f p z y m,
        charge_all-cons f p ps z y,
      ))

charges-cache :
    (f : ℕ → ℕ) (y : Bool) (c : PageCache)
    → charge_all f c.zeros true y + charge_all f c.dirty false y ≡ cache_total f y c
charges-cache f true c = omega arith
charges-cache f false c = omega arith

drain_caches-total :
    (segments : List Segment) (cs : List PageCache) (m : PmmState)
    → ((y : Bool) → caches_total (unknown segments) y cs ≡ 0)
    → (f : ℕ → ℕ) (y : Bool)
    → pmm_total f y (drain_caches segments cs m) ≡ caches_total f y cs + pmm_total f y m
unfolding drain_caches
drain_caches-total segments [] m h f y = omega arith
drain_caches-total segments (c ∷ cs) m h f y =
    let half = drain_slots segments false c.dirty m in
    let whole = drain_slots segments true c.zeros half in
    omega (
      arith,
      drain_caches-total segments cs whole (λ b. omega (arith, h b)) f y,
      drain_slots-total segments true c.zeros half (omega (arith, h true)) f y,
      drain_slots-total segments false c.dirty m (omega (arith, h false)) f y,
      charges-cache f y c,
    )

emptied-total : (f : ℕ → ℕ) (y : Bool) (cs : List PageCache) → caches_total f y (emptied cs) ≡ 0
unfolding emptied
emptied-total f y [] = refl
emptied-total f true (c ∷ cs) = omega (arith, emptied-total f true cs)
emptied-total f false (c ∷ cs) = omega (arith, emptied-total f false cs)

-- Draining the caches moves all their frames to the lists.
pub drain_page_caches-IsMoved : (q : Pool) → IsKnown q → IsMoved q (drain_page_caches q)
unfolding drain_page_caches
drain_page_caches-IsMoved q known = (
  refl,
  λ f y. omega (
    arith,
    emptied-total f y q.caches,
    drain_caches-total q.segments q.caches q.pmm (λ b. omega (arith, known b)) f y,
  ),
)
