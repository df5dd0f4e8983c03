-- ===== src/Mem/Vmem/Freeing.antt =====
-- `Vmem::free` of kernel/src/mem/vmem.rs against the map from addresses to their status.
pub mod Releasing
use roanix.Prelude.{
  ℕ, ◌+◌, ◌-◌, ◌≤◌, ◌<◌, ◌≡◌, refl, ap, sym, ◌∙◌, true, false, ◌&&◌, Option, none, some, [], ◌∷◌,
  ◌++◌, ltb, leb, ◌==◌, ==_refl, if◌then◌else◌, arith, Bool-cases, inl, inr, ◌⊎◌, u64_max,
  append_assoc,
}
use roanix.Prelude.Outcomes.{done, panic}
use mathlib.Core.Path.{subst}
use roanix.Mem.Index.{OrderedTree}
use roanix.Mem.Index.Assoc.{lookup, last_below}
use roanix.Mem.Vmem.Arena.{Segment, end, Vmem, tag, set_tag, push_free}
use roanix.Mem.Vmem.Release.{
  next_neighbour, previous_neighbour, absorb_next, release_tag, free, free_held,
}
use roanix.Mem.Vmem.Tiles.{
  Tags, Tiles, status, allocated, spanned, or_else, locate, Tiles-append, status-append,
  allocated-append, spanned-append, status_after, status_before, lookup-after, put-after,
  last_below-before, none_there, ends, last_tag, Tiles-split,
}
use roanix.Mem.Vmem.Pieces.{tags, tag-done, push_free-done, SameTags}
use roanix.Mem.Vmem.Allocates.{IsArena}
use roanix.Mem.Vmem.Merging.{Grown, absorb_into-done, absorb_next-done}
use roanix.Mem.Vmem.Freeing.Releasing.{marked, Released, release_tag-done}

module _ (T : OrderedTree Segment) where
  open T use {entries, write, entries-write, find_lem}

  -- `w` is `v` with the bytes of the allocated range free, and nothing else changed.
  pub record Frees (v w : Vmem T) (base size : ℕ) : Type 0 where
    pub valid : IsArena T w
    pub was_allocated : (a : ℕ) → base ≤ a → a < base + size → status (tags T v) a ≡ some false
    pub status_lem :
        (a : ℕ)
        → status (tags T w) a
          ≡ (if leb base a && ltb a (base + size) then some true else status (tags T v) a)
    pub used : w.used + size ≡ v.used
    pub total : w.total ≡ v.total
    pub quantum : w.quantum ≡ v.quantum

  -- What the unmerged tags say, against the tags before.
  module _ (v w : Vmem T) (before after : Tags) (s : Segment)
      (e : tags T v ≡ before ++ ((s.base, s) ∷ after)) (left : Tiles 0 before s.base)
      (some_size : 0 < s.size) (right : Tiles (end s) after u64_max) (held : s.free ≡ false)
      (g : Grown T v before after s w) where
    abbrev unmerged : Tags
    unmerged = marked before (record s { size = g.size }) g.rest

    status-unmerged :
        (a : ℕ)
        → status unmerged a
          ≡ (if leb s.base a && ltb a (end s) then some true else status (tags T v) a)
    unfolding status or_else
    status-unmerged a =
        rw
          (
            e,
            status-append before ((s.base, record s { size = g.size; free = true }) ∷ g.rest) a,
            status-append before ((s.base, s) ∷ after) a,
          )
          (ground (
            arith,
            status_after before a 0 s.base left,
            g.rest_status a,
            g.grows,
            status_before after a (end s) u64_max right,
            status_before g.rest a (s.base + g.size) u64_max g.right,
          ))

    allocated-unmerged : allocated unmerged + s.size ≡ allocated (tags T v)
    unfolding allocated
    allocated-unmerged =
        rw (e, allocated-append, allocated-append) (ground (arith, g.rest_allocated))

    spanned-unmerged : spanned unmerged ≡ spanned (tags T v)
    unfolding spanned
    spanned-unmerged = rw (e, spanned-append, spanned-append) (omega (arith, g.rest_spanned))

    status-held : (a : ℕ) → s.base ≤ a → a < end s → status (tags T v) a ≡ some false
    unfolding status or_else
    status-held a p q =
        rw (e, status-append before ((s.base, s) ∷ after) a, status_after before a 0 s.base left p)
          (ground arith)

    Frees-Released :
        IsArena T v
        → (k : ℕ) (v₂ x : Vmem T) → Released T w v₂ before g.rest (record s { size = g.size }) k
        → SameTags T v₂ x
        → Frees v (record x { used = x.used - s.size }) s.base s.size
    Frees-Released valid k v₂ x r same = record {
      valid = record {
        tiles =
            rw (same.segments, r.held)
              (Tiles-append r.pre ((k, r.tag) ∷ g.rest) 0 k u64_max r.left (
                r.base,
                omega arith,
                r.size,
                subst (λ b. Tiles b g.rest u64_max) (sym r.stop) g.right,
              ));
        used = omega (arith, counted, allocated-same);
        total = same.total ∙ r.total ∙ g.total ∙ valid.total ∙ sym spanned-same;
        quantum = rw (same.quantum, r.quantum, g.quantum) valid.quantum;
      };
      was_allocated = status-held;
      status_lem = λ a.
          ap (λ ts. status ts a) (ap entries same.segments)
          ∙ r.same.status_lem a
          ∙ status-unmerged a;
      used = omega (arith, counted, allocated-same, valid.used);
      total = same.total ∙ r.total ∙ g.total;
      quantum = same.quantum ∙ r.quantum ∙ g.quantum;
    }
      where
        counted : x.used ≡ allocated (tags T v)
        counted = same.used ∙ r.used ∙ g.used ∙ valid.used

        allocated-same : allocated (tags T x) + s.size ≡ allocated (tags T v)
        allocated-same =
            ap (λ ts. allocated ts + s.size) (ap entries same.segments)
            ∙ ap (λ n. n + s.size) r.same.allocated_lem
            ∙ allocated-unmerged

        spanned-same : spanned (tags T x) ≡ spanned (tags T v)
        spanned-same = ap spanned (ap entries same.segments) ∙ r.same.spanned_lem ∙ spanned-unmerged

  free-steps :
      (v v₁ v₂ v₃ : Vmem T) (s : Segment) (k : ℕ)
      → tag T v s.base ≡ done s
      → s.free ≡ false
      → absorb_next T v s.base (next_neighbour T v s.base s) ≡ done v₁
      → release_tag T v₁ s.base (previous_neighbour T v₁ s.base s.span) ≡ done (k, v₂)
      → push_free T v₂ k ≡ done v₃
      → free T v s.base ≡ done (s.size, record v₃ { used = v₃.used - s.size })
  unfolding free free_held
  free-steps v v₁ v₂ v₃ s k found held absorbed released pushed =
      rw (found, free) (ap (λ b. if b then panic else free_held T v s.base s) held ∙ held_steps)
    where
      held_steps : free_held T v s.base s ≡ done (s.size, record v₃ { used = v₃.used - s.size })
      held_steps = rw (free_held, absorbed, released, pushed)

  -- `free` on the base of an allocated tag: it returns the tag's size, whether or not the tag
  -- merges with a free neighbour on either side.
  pub free-Frees :
      (v : Vmem T) (s : Segment)
      → IsArena T v
      → lookup s.base (tags T v) ≡ some s
      → s.free ≡ false
      → (w : Vmem T) × (free T v s.base ≡ done (s.size, w)) × Frees v w s.base s.size
  free-Frees v s valid found held =
      let l = locate (tags T v) s.base s 0 u64_max valid.tiles found in
      let (v₁, absorbed, g) =
        absorb_next-done T v l.before l.after s l.parts l.left l.size l.right in
      let (k, released) =
        release_tag-done T v₁ l.before g.rest (record s { size = g.size }) g.held l.left
          (omega (arith, g.grows, l.size)) g.right s.span in
      let r = released.2 in
      let (v₃, pushed, same) = push_free-done T released.0 k r.tag (
        ap (lookup k) r.held
        ∙ lookup-after r.pre ((k, r.tag) ∷ g.rest) k 0 k r.left (omega arith)
        ∙ (rw ==_refl)) in
      (
        record v₃ { used = v₃.used - s.size },
        free-steps v v₁ released.0 v₃ s k (tag-done T v s.base s found) held absorbed released.1
            pushed,
        Frees-Released v v₁ l.before l.after s l.parts l.left l.size l.right held g valid k
            released.0 v₃ r same,
      )

  -- `free` on the base of a free tag stops the kernel, as does one on an address without a tag.
  free-panics :
      (v : Vmem T) (base : ℕ)
      → ((lookup base (tags T v) ≡ none)
          ⊎ ((s : Segment) × (lookup base (tags T v) ≡ some s) × (s.free ≡ true)))
      → free T v base ≡ panic
  unfolding free tag
  free-panics v base (inl e) = rw (free, tag, find_lem base v.segments, e)
  free-panics v base (inr (s, e, f)) =
      rw (tag-done T v base s e, free) (ap (λ b. if b then panic else free_held T v base s) f)
