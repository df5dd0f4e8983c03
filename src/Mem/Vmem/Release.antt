-- ===== src/Mem/Vmem/Release.antt =====
-- kernel/src/mem/vmem.rs: giving a range back.
use roanix.Prelude.{ℕ, ◌+◌, ◌-◌, true, ◌&&◌, Option, none, some, ◌==◌, if◌then◌else◌}
use roanix.Prelude.Outcomes.{done, panic, ◌>>=◌}
use roanix.Mem.Index.{OrderedTree, previous, following}
use roanix.Mem.Vmem.Arena.{Vmem, tag, set_tag, push_free, pop_free, Segment, end, Run}

module _ (T : OrderedTree Segment) where
  open T use {Tree, empty, find, remove, write}

  -- The free neighbour behind a tag, to be merged into it.
  unfoldable pub next_neighbour : (Vmem T) → ℕ → Segment → Option ℕ
  next_neighbour v base s = elim (following T base v.segments) [
    | none ↦ none
    | some (key, n) ↦ if n.free && n.span == s.span && n.base == end s then some key else none
  ]

  -- The free neighbour before it.
  unfoldable pub previous_neighbour : (Vmem T) → ℕ → ℕ → Option ℕ
  previous_neighbour v base span = elim (previous T base v.segments) [
    | none ↦ none
    | some (key, p) ↦ if p.free && p.span == span && end p == base then some key else none
  ]

  -- Takes a free neighbour off its list, lets the tag at `base` grow by it, and removes
  -- the neighbour's tag.
  unfoldable pub absorb : (Vmem T) → ℕ → ℕ → Run (Vmem T)
  absorb v base next = do
    v ← pop_free T v next
    b ← tag T v base
    n ← tag T v next
    let v = set_tag T v base (record b { size = b.size + n.size })
    done (record v { segments = remove next v.segments })

  -- The same with the neighbour before, which grows by the tag at `base`.
  unfoldable pub absorb_into : (Vmem T) → ℕ → ℕ → Run (Vmem T)
  absorb_into v previous base = do
    v ← pop_free T v previous
    p ← tag T v previous
    b ← tag T v base
    let v = set_tag T v previous (record p { size = p.size + b.size })
    done (record v { segments = remove base v.segments })

  -- The merge with the neighbour before, or the mark as free: the new key and the arena.
  unfoldable pub release_tag : (Vmem T) → ℕ → Option ℕ → Run (ℕ × (Vmem T))
  release_tag v base (some previous) = do v ← absorb_into v previous base; done (previous, v)
  release_tag v base none = do
    b ← tag T v base
    done (base, set_tag T v base (record b { free = true }))

  -- The merge with the neighbour behind.
  unfoldable pub absorb_next : (Vmem T) → ℕ → Option ℕ → Run (Vmem T)
  absorb_next v base none = done v
  absorb_next v base (some next) = absorb v base next

  -- The body of `free` behind its assertion.
  unfoldable pub free_held : Vmem T → ℕ → Segment → Run (ℕ × Vmem T)
  free_held v base s = do
    v ← absorb_next v base (next_neighbour v base s)
    r ← release_tag v base (previous_neighbour v base s.span)
    v ← push_free T r.1 r.0
    done (s.size, record v { used = v.used - s.size })

  -- `free`: the size given back, and the arena.
  unfoldable pub free : Vmem T → ℕ → Run (ℕ × Vmem T)
  free v base = do s ← tag T v base; if s.free then panic else free_held v base s
