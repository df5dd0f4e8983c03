-- ===== src/Mem/Vmem/Take.antt =====
-- kernel/src/mem/vmem.rs: taking a range out of a free segment.
use roanix.Prelude.{
  ℕ, ◌+◌, ◌-◌, Bool, true, false, not, Option, none, some, ltb, ◌==◌, if◌then◌else◌,
}
use roanix.Prelude.Outcomes.{done, fail, ◌>>=◌}
use roanix.Mem.Index.{OrderedTree, publish}
use roanix.Mem.Vmem.Arena.{Vmem, tag, set_tag, push_free, pop_free, Segment, end, Run, no_memory}

-- The keys of the pooled nodes that a placement has reserved.
pub record Reservation : Type 0 where
  pub base : ℕ
  pub size : ℕ
  pub start : Option ℕ
  pub trailing : Option ℕ

module _ (T : OrderedTree Segment) where
  open T use {Tree, empty, find, remove, write}

  -- Whether the pool has a node for the tag at a base is up to the rest of the kernel.
  unfoldable pub reserve_tag : (ℕ → Bool) → ℕ → Run ℕ
  reserve_tag pool base = if pool base then done base else fail no_memory

  -- A node is reserved only where the test passes.
  unfoldable pub reserve_if : (ℕ → Bool) → Bool → ℕ → Run (Option ℕ)
  reserve_if pool false base = done none
  reserve_if pool true base = do node ← reserve_tag pool base; done (some node)

  unfoldable pub prepare_take : (ℕ → Bool) → (Vmem T) → ℕ → ℕ → ℕ → Run Reservation
  prepare_take pool v segment base size = do
    s ← tag T v segment
    start ← reserve_if pool (not (base == segment)) base
    trailing ← reserve_if pool (not (base + size == end s)) (base + size)
    done (record { base = base; size = size; start = start; trailing = trailing })

  -- The first half of `take`: the segment up to `base`, and the new tag there.
  unfoldable pub take_start : (Vmem T) → ℕ → Segment → Reservation → Run (Vmem T)
  take_start v segment original r =
      if ltb segment r.base
      then (do
        v ← push_free T (set_tag T v segment (record original { size = r.base - segment })) segment
        let fresh : Segment = record {
          base = r.base;
          size = r.size;
          span = original.span;
          free = false;
        }
        t ← publish T r.base fresh r.start v.segments
        done (record v { segments = t }))
      else done (set_tag T v segment (record original { size = r.size; free = false }))

  -- The second half: the rest behind the new tag.
  unfoldable pub take_end : (Vmem T) → Segment → Reservation → Run (Vmem T)
  take_end v original r =
      if ltb (r.base + r.size) (end original)
      then (do
        let rest : Segment = record {
          base = r.base + r.size;
          size = end original - r.base - r.size;
          span = original.span;
          free = true;
        }
        t ← publish T (r.base + r.size) rest r.trailing v.segments
        push_free T (record v { segments = t }) (r.base + r.size))
      else done v

  unfoldable pub take_segment : (Vmem T) → ℕ → Reservation → Run (Vmem T)
  take_segment v segment r = do
    original ← tag T v segment
    v ← pop_free T v segment
    v ← take_start v segment original r
    v ← take_end v original r
    done (record v { used = v.used + r.size })
