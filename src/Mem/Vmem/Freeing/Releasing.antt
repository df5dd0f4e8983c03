-- ===== src/Mem/Vmem/Freeing/Releasing.antt =====
-- `release_tag` of kernel/src/mem/vmem.rs: the tag that `Vmem::free` leaves.
use roanix.Prelude.{
  ℕ, ◌+◌, ◌<◌, ◌≡◌, refl, ap, ◌∙◌, true, ◌&&◌, Option, none, some, [], ◌∷◌, ◌++◌, ◌==◌, ==_refl,
  if◌then◌else◌, arith, Bool-cases, inl, inr, u64_max, append_assoc,
}
use roanix.Prelude.Outcomes.{done}
use mathlib.Core.Path.{subst}
use roanix.Mem.Index.{OrderedTree}
use roanix.Mem.Index.Assoc.{lookup, last_below}
use roanix.Mem.Vmem.Arena.{Segment, end, Vmem, set_tag}
use roanix.Mem.Vmem.Release.{previous_neighbour, release_tag, free}
use roanix.Mem.Vmem.Tiles.{
  Tags, Tiles, status, allocated, spanned, or_else, status-append, allocated-append, spanned-append,
  lookup-after, put-after, last_below-before, none_there, ends, last_tag, Tiles-split,
}
use roanix.Mem.Vmem.Pieces.{tags, tag-done}
use roanix.Mem.Vmem.Merging.{absorb_into-done}

-- Two lists of tags that say the same of every byte.
pub record SameMap (L M : Tags) : Type 0 where
  pub status_lem : (a : ℕ) → status L a ≡ status M a
  pub allocated_lem : allocated L ≡ allocated M
  pub spanned_lem : spanned L ≡ spanned M

-- Two free neighbours may be one tag.
fuse-SameMap :
    (pre post : Tags) (k : ℕ) (p u : Segment)
    → k ≡ p.base
    → p.free ≡ true
    → u.free ≡ true
    → u.base ≡ end p
    → SameMap
        (pre ++ ((k, record p { size = p.size + u.size }) ∷ post))
        (pre ++ ((k, p) ∷ (u.base, u) ∷ post))
unfolding status or_else allocated spanned
fuse-SameMap pre post k p u at_base fp fu touch = record {
  status_lem = λ a.
      rw
        (
          status-append pre ((k, record p { size = p.size + u.size }) ∷ post) a,
          status-append pre ((k, p) ∷ (u.base, u) ∷ post) a,
        )
        (ground arith);
  allocated_lem = rw (allocated-append, allocated-append) (ground arith);
  spanned_lem = rw (spanned-append, spanned-append) (omega arith);
}

-- The tags once the grown tag `u` at `base` is marked free, not yet merged with its neighbour.
abbrev pub marked : Tags → Segment → Tags → Tags
marked before u rest = before ++ ((u.base, record u { free = true }) ∷ rest)

module _ (T : OrderedTree Segment) where
  open T use {entries, write, entries-write, find_lem}

  -- What `release_tag` leaves: the free tag's key and its place.
  pub record Released (v w : Vmem T) (before rest : Tags) (u : Segment) (k : ℕ) : Type 0 where
    pub pre : Tags
    pub tag : Segment
    pub held : tags T w ≡ pre ++ ((k, tag) ∷ rest)
    pub base : k ≡ tag.base
    pub left : Tiles 0 pre k
    pub size : 0 < tag.size
    pub stop : end tag ≡ end u
    pub same : SameMap (tags T w) (marked before u rest)
    pub quantum : w.quantum ≡ v.quantum
    pub total : w.total ≡ v.total
    pub used : w.used ≡ v.used

  module _ (v : Vmem T) (before rest : Tags) (u : Segment)
      (e : tags T v ≡ before ++ ((u.base, u) ∷ rest)) (left : Tiles 0 before u.base)
      (some_size : 0 < u.size) (right : Tiles (end u) rest u64_max) where
    release_tag-none :
        (w : Vmem T) × (release_tag T v u.base none ≡ done (u.base, w))
        × Released v w before rest u u.base
    unfolding release_tag
    release_tag-none =
        let found : lookup u.base (tags T v) ≡ some u = rw (
          e,
          lookup-after before ((u.base, u) ∷ rest) u.base 0 u.base left (omega arith),
          ==_refl,
        ) in
        let held : tags T (set_tag T v u.base (record u { free = true })) ≡ marked before u rest =
          rw (
            entries-write,
            e,
            put-after before ((u.base, u) ∷ rest) u.base (record u { free = true }) 0 u.base left
                (omega arith),
            ==_refl,
          ) in
        (
          set_tag T v u.base (record u { free = true }),
          rw (tag-done T v u.base u found),
          record {
            pre = before;
            tag = record u { free = true };
            held = held;
            base = refl;
            left = left;
            size = some_size;
            stop = refl;
            same =
                rw held
                  (record { status_lem = λ a. refl; allocated_lem = refl; spanned_lem = refl });
            quantum = refl;
            total = refl;
            used = refl;
          },
        )

    release_tag-some :
        (init : Tags) (j : ℕ) (p : Segment)
        → before ≡ init ++ ((j, p) ∷ [])
        → u.base ≡ end p
        → p.free ≡ true
        → (w : Vmem T) × (release_tag T v u.base (some j) ≡ done (j, w))
          × Released v w before rest u j
    unfolding release_tag
    release_tag-some init j p q touch free =
        let (t, base, pos, _) =
          Tiles-split init [] j p 0 u.base (subst (λ ts. Tiles 0 ts u.base) q left) in
        let regroup : (x : Segment)
            → before ++ ((u.base, x) ∷ rest) ≡ init ++ ((j, p) ∷ (u.base, x) ∷ rest) =
          λ x.
            ap (λ ts. ts ++ ((u.base, x) ∷ rest)) q
            ∙ append_assoc init ((j, p) ∷ []) ((u.base, x) ∷ rest) in
        let (w, absorbed, m) =
          absorb_into-done T v init rest j u.base p u 0 (e ∙ regroup u) t (omega arith) in
        (
          w,
          rw absorbed,
          record {
            pre = init;
            tag = record p { size = p.size + u.size };
            held = m.held;
            base = base;
            left = t;
            size = omega arith;
            stop = omega arith;
            same =
                rw (m.held, regroup (record u { free = true }))
                  (fuse-SameMap init rest j p (record u { free = true }) base free refl touch);
            quantum = m.quantum;
            total = m.total;
            used = m.used;
          },
        )

    previous_neighbour-before :
        (span : ℕ)
        → previous_neighbour T v u.base span ≡ (elim (last_below u.base before) [
          | none ↦ none
          | some (key, p) ↦ if p.free && p.span == span && end p == u.base then some key else none
        ])
    unfolding previous_neighbour
    previous_neighbour-before span = rw (
      previous_neighbour,
      e,
      last_below-before before ((u.base, u) ∷ rest) u.base u.base u64_max
          (refl, omega arith, some_size, right) (omega arith),
    )

    -- With or without a neighbour to merge with, the tag is given back.
    pub release_tag-done :
        (span : ℕ)
        → (k : ℕ) × ((w : Vmem T) × (release_tag T v u.base (previous_neighbour T v u.base span)
              ≡ done (k, w))
            × Released v w before rest u k)
    release_tag-done span = elim (last_tag before u.base 0 u.base left (omega arith)) [
      | none_there q n ↦
          (u.base, as_found none (previous_neighbour-before span ∙ (rw n)) release_tag-none)
      | ends init j p q n ↦ elim (Bool-cases (p.free && p.span == span && end p == u.base)) [
        | inl t ↦ (
          j,
          as_found (some j) (previous_neighbour-before span ∙ (rw (n, t)))
              (release_tag-some init j p q (ground arith) (ground arith)),
        )
        | inr t ↦
            (u.base, as_found none (previous_neighbour-before span ∙ (rw (n, t))) release_tag-none)
      ]
    ]
      where
        as_found :
            (o : Option ℕ) {k : ℕ}
            → previous_neighbour T v u.base span ≡ o
            → (w : Vmem T) × (release_tag T v u.base o ≡ done (k, w)) × Released v w before rest u k
            → (w : Vmem T) × (release_tag T v u.base (previous_neighbour T v u.base span)
                ≡ done (k, w))
              × Released v w before rest u k
        as_found o n r = (r.0, ap (release_tag T v u.base) n ∙ r.1, r.2)
