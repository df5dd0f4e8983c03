-- ===== src/Mem/Vmem/Pieces.antt =====
-- The tags that a cut of a free segment leaves, and the index operations of kernel/src/mem/vmem.rs
-- seen in the list of tags.
use roanix.Prelude.{
  ℕ, ◌+◌, ◌-◌, ◌≤◌, ◌<◌, ◌≡◌, refl, true, false, ◌&&◌, Option, none, some, [], ◌∷◌, ◌++◌, ltb, leb,
  if◌then◌else◌, arith,
}
use roanix.Prelude.Outcomes.{done}
use roanix.Mem.Index.{OrderedTree, publish}
use roanix.Mem.Index.Assoc.{lookup, insert_sorted}
use roanix.Mem.Vmem.Arena.{VmemError, Segment, end, Vmem, tag, push_free, pop_free}
use roanix.Mem.Vmem.Tiles.{Tags, Tiles, status, allocated, spanned}

-- left behind.
abbrev pub front : Segment → ℕ → Tags
front s base = if ltb s.base base then (s.base, record s { size = base - s.base }) ∷ [] else []

abbrev pub taken : Segment → ℕ → ℕ → Segment
taken s base size = record { base = base; size = size; span = s.span; free = false }

abbrev pub rear : Segment → ℕ → ℕ → Tags
rear s base size =
    if ltb (base + size) (end s)
    then (
      base + size,
      record { base = base + size; size = end s - base - size; span = s.span; free = true },
    )
      ∷ []
    else []

abbrev pub pieces : Segment → ℕ → ℕ → Tags
pieces s base size = front s base ++ ((base, taken s base size) ∷ rear s base size)

module _ (s : Segment) (base size : ℕ) (free : s.free ≡ true) (from : s.base ≤ base)
    (some_size : 0 < size) (within : base + size ≤ end s) where
  pub pieces-Tiles : Tiles s.base (pieces s base size) (end s)
  pieces-Tiles = ground arith

  pub status-pieces :
      (a : ℕ)
      → status (pieces s base size) a ≡ (
          if leb base a && ltb a (base + size)
          then some false
          else if leb s.base a && ltb a (end s)
          then some true
          else none)
  unfolding status
  status-pieces a = ground arith

  pub allocated-pieces : allocated (pieces s base size) ≡ size
  unfolding allocated
  allocated-pieces = ground arith

  pub spanned-pieces : spanned (pieces s base size) ≡ s.size
  unfolding spanned
  spanned-pieces = ground arith

module _ (T : OrderedTree Segment) where
  open T use {Tree, entries, find, insert, write, find_lem, entries-insert, entries-write}

  abbrev pub tags : Vmem T → Tags
  tags v = entries v.segments

  -- Only the free lists may differ.
  pub record SameTags (v w : Vmem T) : Type 0 where
    pub segments : w.segments ≡ v.segments
    pub quantum : w.quantum ≡ v.quantum
    pub total : w.total ≡ v.total
    pub used : w.used ≡ v.used

  pub tag-done :
      (v : Vmem T) (k : ℕ) (s : Segment) → lookup k (tags v) ≡ some s → tag T v k ≡ done s
  unfolding tag
  tag-done v k s e = rw (find_lem k v.segments, e, tag)

  pub push_free-done :
      (v : Vmem T) (k : ℕ) (s : Segment)
      → lookup k (tags v) ≡ some s
      → (w : Vmem T) × (push_free T v k ≡ done w) × SameTags v w
  unfolding push_free
  push_free-done v k s e =
      rw (tag-done v k s e, push_free)
        (_, refl, record { segments = refl; quantum = refl; total = refl; used = refl })

  pub pop_free-done :
      (v : Vmem T) (k : ℕ) (s : Segment)
      → lookup k (tags v) ≡ some s
      → (w : Vmem T) × (pop_free T v k ≡ done w) × SameTags v w
  unfolding pop_free
  pop_free-done v k s e =
      rw (tag-done v k s e, pop_free)
        (_, refl, record { segments = refl; quantum = refl; total = refl; used = refl })

  -- An entry's write, seen in the list.
  pub publish-done :
      (k : ℕ) (s : Segment) (r : Option ℕ) (t : Tree)
      → lookup k (entries t) ≡ none
      → r ≡ some k
      → (t' : Tree) × (publish T {E = VmemError} k s r t ≡ done t')
        × (entries t' ≡ insert_sorted k s (entries t))
  unfolding publish
  publish-done k s r t e h =
      (insert k s t, rw (find_lem k t, e, publish, h) (ground arith), entries-insert k s t e)
