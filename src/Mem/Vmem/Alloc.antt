-- ===== src/Mem/Vmem/Alloc.antt =====
-- kernel/src/mem/vmem.rs: adding spans and allocating.
use roanix.Prelude.{
  ℕ, ◌+◌, ◌-◌, ◌*◌, ◌/◌, ◌%◌, max, Bool, true, false, not, ◌||◌, Option, none, some, ltb, leb, ◌==◌,
  if◌then◌else◌, checked_add, u64_max,
}
use roanix.Prelude.Outcomes.{done, fail, panic, ◌>>=◌}
use roanix.Prelude.Bits.{is_power_of_two}
use roanix.Mem.Index.{OrderedTree, publish, previous}
use roanix.Mem.Vmem.Arena.{
  Vmem, tag, push_free, round_size, fixed_size, covering, Segment, end, Run, or_fail, no_space,
  invalid,
}
use roanix.Mem.Vmem.Fit.{instant_fit, scan_fit, find_fit, VmemFit}
use roanix.Mem.Vmem.Take.{reserve_tag, prepare_take, take_segment, Reservation}

-- `is_some_and(|(_, tag)| tag.end() > base)`
unfoldable pub overlaps : Option (ℕ × Segment) → ℕ → Bool
overlaps none base = false
overlaps (some (key, s)) base = ltb base (end s)

unfoldable pub is_some {ℓ} : {A : Type ℓ} → Option A → Bool
is_some none = false
is_some (some a) = true

module _ (T : OrderedTree Segment) where
  open T use {Tree, empty, find, remove, write}

  unfoldable pub add_span : (ℕ → Bool) → (Vmem T) → ℕ → ℕ → Run (Vmem T)
  add_span pool v base size = do
    stop ← or_fail (checked_add base size) invalid
    total ← or_fail (checked_add v.total size) invalid
    if size == 0
          || not (base % v.quantum == 0)
          || not (size % v.quantum == 0)
          || overlaps (previous T stop v.segments) base
        then fail invalid
        else (do
          node ← reserve_tag T pool base
          let span : Segment = record { base = base; size = size; span = base; free = true }
          t ← publish T base span (some node) v.segments
          v ← push_free T (record v { segments = t }) base
          done (record v { total = total }))

  unfoldable pub xalloc : (ℕ → Bool) → (Vmem T) → ℕ → ℕ → ℕ → ℕ → VmemFit → Run (ℕ × (Vmem T))
  xalloc pool v size align min max_end fit = do
    size ← round_size T v size
    if align == 0 || not (is_power_of_two align) || leb max_end min then fail invalid else (do
      let wide = max align v.quantum
      found ← find_fit T v size wide min max_end fit
      place ← or_fail found no_space
      r ← prepare_take T pool v place.0 place.1 size
      v ← take_segment T v place.0 r
      done (place.1, v))

  unfoldable pub alloc : (ℕ → Bool) → (Vmem T) → ℕ → ℕ → VmemFit → Run (ℕ × (Vmem T))
  alloc pool v size align fit = xalloc pool v size align 0 u64_max fit

  unfoldable pub alloc_random : (ℕ → Bool) → (Vmem T) → ℕ → ℕ → ℕ → Run (ℕ × (Vmem T))
  alloc_random pool v size align entropy = do
    size ← round_size T v size
    if align == 0 || not (is_power_of_two align) then fail invalid else (do
      let wide = max align v.quantum
      found ←
          if wide == v.quantum then instant_fit T v size else scan_fit T v size wide 0 u64_max false
      place ← or_fail found no_space
      s ← tag T v place.0
      let slack = end s - place.1 - size
      let base = place.1 + entropy % (slack / wide + 1) * wide
      r ← prepare_take T pool v place.0 base size
      v ← take_segment T v place.0 r
      done (base, v))

  unfoldable pub alloc_fixed : (ℕ → Bool) → (Vmem T) → ℕ → ℕ → Run (Vmem T)
  alloc_fixed pool v base size = do
    size ← fixed_size T v base size
    found ← covering T v base (base + size)
    segment ← or_fail found no_space
    r ← prepare_take T pool v segment base size
    take_segment T v segment r

  unfoldable pub reserve_fixed : (ℕ → Bool) → (Vmem T) → ℕ → ℕ → Run Reservation
  reserve_fixed pool v base size = do
    size ← fixed_size T v base size
    start ← reserve_tag T pool base
    trailing ← reserve_tag T pool (base + size)
    done (record { base = base; size = size; start = some start; trailing = some trailing })

  unfoldable pub alloc_reserved : (Vmem T) → Reservation → Run (Vmem T)
  alloc_reserved v r = do
    found ← covering T v r.base (r.base + r.size)
    elim found [ none ↦ panic | some segment ↦ take_segment T v segment r ]

  unfoldable pub is_free : (Vmem T) → ℕ → ℕ → Run Bool
  is_free v base size = elim (checked_add base size) [
    | none ↦ done false
    | some stop ↦ do found ← covering T v base stop; done (is_some found)
  ]
