-- ===== src/Mem/Vmem/Merging.antt =====
-- The merge of a tag that is given back with its free neighbours, in kernel/src/mem/vmem.rs.
use roanix.Prelude.{
  ℕ, ◌+◌, ◌≤◌, ◌<◌, ◌≡◌, refl, ap, ◌∙◌, true, ◌&&◌, none, some, [], ◌∷◌, ◌++◌, ltb, lt→ltb, ◌==◌,
  ==_refl, ==_ne, if◌then◌else◌, arith, Bool-cases, inl, inr, u64_max,
}
use roanix.Prelude.Outcomes.{done}
use mathlib.Core.Path.{subst}
use roanix.Mem.Index.{OrderedTree}
use roanix.Mem.Index.Assoc.{lookup, first_above}
use roanix.Mem.Vmem.Arena.{Segment, end, Vmem}
use roanix.Mem.Vmem.Release.{next_neighbour, absorb, absorb_into, absorb_next}
use roanix.Mem.Vmem.Tiles.{
  Tags, Tiles, status, allocated, spanned, lookup-after, put-after, erase-after, first_above-after,
}
use roanix.Mem.Vmem.Pieces.{tags, tag-done, pop_free-done}

module _ (T : OrderedTree Segment) where
  open T use {entries, remove, write, entries-write, entries-remove}

  -- Two neighbours at `k` and `j`, the second taken into the first: what the steps of `absorb` and
  -- `absorb_into` leave in the index.
  merged-entries :
      (w : Vmem T) (pre post : Tags) (k j : ℕ) (a b u : Segment) (lo : ℕ)
      → tags T w ≡ pre ++ ((k, a) ∷ (j, b) ∷ post)
      → Tiles lo pre k
      → k < j
      → entries (remove j (write k u w.segments)) ≡ pre ++ ((k, u) ∷ post)
  merged-entries w pre post k j a b u lo e t lt = rw (
    entries-remove,
    entries-write,
    e,
    put-after pre ((k, a) ∷ (j, b) ∷ post) k u lo k t (omega arith),
    ==_refl k,
    erase-after pre ((k, u) ∷ (j, b) ∷ post) j lo k t (omega arith),
    ==_ne k j lt,
    ==_refl j,
  )

  module _ (v : Vmem T) (pre post : Tags) (k j : ℕ) (a b : Segment) (lo : ℕ)
      (e : tags T v ≡ pre ++ ((k, a) ∷ (j, b) ∷ post)) (t : Tiles lo pre k) (lt : k < j) where
    lookup_first : lookup k (tags T v) ≡ some a
    lookup_first = rw (e, lookup-after pre ((k, a) ∷ (j, b) ∷ post) k lo k t (omega arith), ==_refl)

    lookup_second : lookup j (tags T v) ≡ some b
    lookup_second = rw (
      e,
      lookup-after pre ((k, a) ∷ (j, b) ∷ post) j lo k t (omega arith),
      ==_ne k j lt,
      ==_refl j,
    )

    -- What both leave: the first tag grown by the second, and the counters.
    pub record Merged (w : Vmem T) : Type 0 where
      pub held : tags T w ≡ pre ++ ((k, record a { size = a.size + b.size }) ∷ post)
      pub quantum : w.quantum ≡ v.quantum
      pub total : w.total ≡ v.total
      pub used : w.used ≡ v.used

    pub absorb-done : (w : Vmem T) × (absorb T v k j ≡ done w) × Merged w
    unfolding absorb
    absorb-done =
        let (v₁, popped, same) = pop_free-done T v j b lookup_second in
        let e₁ : tags T v₁ ≡ tags T v = ap entries same.segments in
        let u : Segment = record a { size = a.size + b.size } in
        (
          record v₁ { segments = remove j (write k u v₁.segments) },
          rw (
            popped,
            tag-done T v₁ k a (ap (lookup k) e₁ ∙ lookup_first),
            tag-done T v₁ j b (ap (lookup j) e₁ ∙ lookup_second),
          ),
          record {
            held = merged-entries v₁ pre post k j a b u lo (e₁ ∙ e) t lt;
            quantum = same.quantum;
            total = same.total;
            used = same.used;
          },
        )

    pub absorb_into-done : (w : Vmem T) × (absorb_into T v k j ≡ done w) × Merged w
    unfolding absorb_into
    absorb_into-done =
        let (v₁, popped, same) = pop_free-done T v k a lookup_first in
        let e₁ : tags T v₁ ≡ tags T v = ap entries same.segments in
        let u : Segment = record a { size = a.size + b.size } in
        (
          record v₁ { segments = remove j (write k u v₁.segments) },
          rw (
            popped,
            tag-done T v₁ k a (ap (lookup k) e₁ ∙ lookup_first),
            tag-done T v₁ j b (ap (lookup j) e₁ ∙ lookup_second),
          ),
          record {
            held = merged-entries v₁ pre post k j a b u lo (e₁ ∙ e) t lt;
            quantum = same.quantum;
            total = same.total;
            used = same.used;
          },
        )

  -- The tag at `base`, still allocated, after the merge with the neighbour behind it.
  pub record Grown (v : Vmem T) (before after : Tags) (s : Segment) (w : Vmem T) : Type 0 where
    pub size : ℕ
    pub rest : Tags
    pub held : tags T w ≡ before ++ ((s.base, record s { size = size }) ∷ rest)
    pub grows : s.size ≤ size
    pub right : Tiles (s.base + size) rest u64_max
    pub rest_status :
        (a : ℕ)
        → end s ≤ a
        → (if ltb a (s.base + size) then some true else status rest a) ≡ status after a
    pub rest_allocated : allocated rest ≡ allocated after
    pub rest_spanned : size + spanned rest ≡ s.size + spanned after
    pub quantum : w.quantum ≡ v.quantum
    pub total : w.total ≡ v.total
    pub used : w.used ≡ v.used

  module _ (v : Vmem T) (before after : Tags) (s : Segment)
      (e : tags T v ≡ before ++ ((s.base, s) ∷ after)) (left : Tiles 0 before s.base)
      (some_size : 0 < s.size) (right : Tiles (end s) after u64_max) where
    Grown-unchanged : Grown v before after s v
    Grown-unchanged = record {
      size = s.size;
      rest = after;
      held = e;
      grows = omega arith;
      right = right;
      rest_status = λ a h. ground arith;
      rest_allocated = refl;
      rest_spanned = refl;
      quantum = refl;
      total = refl;
      used = refl;
    }

    following-after : first_above s.base (tags T v) ≡ first_above s.base after
    following-after =
        rw (e, first_above-after before ((s.base, s) ∷ after) s.base 0 s.base left (omega arith))
          (ground arith)

    Grown-absorbed :
        (k : ℕ) (n : Segment) (post : Tags)
        → after ≡ (k, n) ∷ post
        → n.free ≡ true
        → n.base ≡ end s
        → (w : Vmem T) × (absorb T v s.base k ≡ done w) × Grown v before after s w
    unfolding status allocated spanned
    Grown-absorbed k n post q free touches =
        let right' : Tiles (end s) ((k, n) ∷ post) u64_max =
          subst (λ ts. Tiles (end s) ts u64_max) q right in
        let u : Segment = record s { size = s.size + n.size } in
        let ends_alike : end n ≡ end u = omega arith in
        let (w, absorbed, m) =
          absorb-done v before post s.base k s n 0 (e ∙ ap (λ ts. before ++ ((s.base, s) ∷ ts)) q)
            left (omega arith) in
        (
          w,
          absorbed,
          record {
            size = s.size + n.size;
            rest = post;
            held = m.held;
            grows = omega arith;
            right = subst (λ b. Tiles b post u64_max) ends_alike right'.3;
            rest_status = λ a h. rw q (ground arith);
            rest_allocated = rw q (ground arith);
            rest_spanned = rw q (omega arith);
            quantum = m.quantum;
            total = m.total;
            used = m.used;
          },
        )

    next_neighbour-none : after ≡ [] → next_neighbour T v s.base s ≡ none
    unfolding next_neighbour
    next_neighbour-none q = rw (following-after, next_neighbour, q)

    next_neighbour-some :
        (k : ℕ) (n : Segment) (post : Tags)
        → after ≡ (k, n) ∷ post
        → next_neighbour T v s.base s
          ≡ (if n.free && n.span == s.span && n.base == end s then some k else none)
    unfolding next_neighbour
    next_neighbour-some k n post q =
        let t : Tiles (end s) ((k, n) ∷ post) u64_max =
          subst (λ ts. Tiles (end s) ts u64_max) q right in
        rw (following-after, next_neighbour, q, lt→ltb s.base k (omega arith))

    pub absorb_next-done :
        (w : Vmem T) × (absorb_next T v s.base (next_neighbour T v s.base s) ≡ done w)
        × Grown v before after s w
    unfolding absorb_next
    absorb_next-done = go after refl
      where
        go :
            (ts : Tags)
            → after ≡ ts
            → (w : Vmem T) × (absorb_next T v s.base (next_neighbour T v s.base s) ≡ done w)
              × Grown v before after s w
        go [] q = (v, rw (next_neighbour-none q), Grown-unchanged)
        go ((k, n) ∷ post) q = elim (Bool-cases (n.free && n.span == s.span && n.base == end s)) [
          | inl p ↦
              let (w, absorbed, g) = Grown-absorbed k n post q (ground arith) (ground arith) in
              (w, rw (next_neighbour-some k n post q, p) absorbed, g)
          | inr p ↦ (v, rw (next_neighbour-some k n post q, p), Grown-unchanged)
        ]
