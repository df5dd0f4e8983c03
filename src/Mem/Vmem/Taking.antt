-- ===== src/Mem/Vmem/Taking.antt =====
-- What `Vmem::take` of kernel/src/mem/vmem.rs does to the tags, whatever free segment it cuts.
use roanix.Prelude.{
  ℕ, ◌+◌, ◌-◌, ◌≤◌, ◌<◌, ◌≡◌, refl, ap, sym, ◌∙◌, true, false, none, some, ◌∷◌, ◌++◌, append_assoc,
  ==_refl, ==_ne, lt→ltb, ltb→lt, ltb, arith, Bool-cases, inl, inr, ◌≢◌,
}
use roanix.Prelude.Outcomes.{done}
use roanix.Mem.Index.{OrderedTree}
use roanix.Mem.Index.Assoc.{lookup, insert_sorted}
use roanix.Mem.Vmem.Arena.{Segment, end, Vmem, set_tag}
use roanix.Mem.Vmem.Take.{Reservation, take_start, take_end, take_segment}
use roanix.Mem.Vmem.Tiles.{
  Tags, Tiles, Located, Tiles-append, lookup-after, put-after, insert_sorted-after, lookup-before,
  insert_sorted-before,
}
use roanix.Mem.Vmem.Pieces.{
  front, taken, rear, pieces, tags, tag-done, push_free-done, pop_free-done, publish-done,
}

module _ (T : OrderedTree Segment) where
  open T use {Tree, entries, find, insert, write, find_lem, entries-insert, entries-write}

  -- A tag located in the arena, with the facts that a cut of it at `r` needs.
  module _ (v : Vmem T) (s : Segment) (r : Reservation) (lo hi : ℕ)
      (l : Located lo (tags T v) hi s.base s) (from : s.base ≤ r.base) (some_size : 0 < r.size)
      (within : r.base + r.size ≤ end s) (start : r.base ≢ s.base → r.start ≡ some r.base)
      (trailing : r.base + r.size ≢ end s → r.trailing ≡ some (r.base + r.size)) where
    open l use {before, after, parts, left, right}

    -- The tags T in front of the rest, once the segment ends before the new tag.
    abbrev shrunk : Segment → Tags
    shrunk u = before ++ ((s.base, u) ∷ after)

    entries-set_tag : (u : Segment) → entries (write s.base u v.segments) ≡ shrunk u
    entries-set_tag u = rw (
      entries-write,
      parts,
      put-after before ((s.base, s) ∷ after) s.base u lo s.base left (omega arith),
      ==_refl,
    )

    lookup-shrunk : (u : Segment) → lookup s.base (shrunk u) ≡ some u
    lookup-shrunk u =
        rw (lookup-after before ((s.base, u) ∷ after) s.base lo s.base left (omega arith), ==_refl)

    lookup-shrunk_inside :
        (u : Segment) (a : ℕ) → s.base < a → a < end s → lookup a (shrunk u) ≡ none
    lookup-shrunk_inside u a p q = rw (
      lookup-after before ((s.base, u) ∷ after) a lo s.base left (omega arith),
      ==_ne s.base a p,
      lookup-before after a (end s) hi right q,
    )

    insert_sorted-shrunk :
        (u w : Segment) (a : ℕ)
        → s.base < a
        → a < end s
        → insert_sorted a w (shrunk u) ≡ before ++ ((s.base, u) ∷ (a, w) ∷ after)
    insert_sorted-shrunk u w a p q =
        rw
          (
            insert_sorted-after before ((s.base, u) ∷ after) a w lo s.base left (omega arith),
            insert_sorted-before after a w (end s) hi right q,
          )
          (ground arith)

    -- What the steps of `take` leave in the index; the counters stay.
    record Holds (w : Vmem T) (ts : Tags) : Type 0 where
      held : tags T w ≡ ts
      quantum : w.quantum ≡ v.quantum
      total : w.total ≡ v.total
      used : w.used ≡ v.used

    -- The segment keeps its front: the new tag goes behind it.
    take_start-split :
        s.base < r.base
        → (w : Vmem T) × (take_start T v s.base s r ≡ done w)
          × Holds w (
              before
              ++ ((s.base, record s { size = r.base - s.base })
                  ∷ (r.base, taken s r.base r.size)
                  ∷ after))
    unfolding take_start
    take_start-split lt =
        let u : Segment = record s { size = r.base - s.base } in
        let inside : r.base < end s = omega arith in
        let (v₂, pushed, same) =
          push_free-done T (set_tag T v s.base u) s.base u (rw entries-set_tag (lookup-shrunk u)) in
        let e : tags T v₂ ≡ shrunk u = ap entries same.segments ∙ entries-set_tag u in
        let (t, published, added) =
          publish-done T r.base (taken s r.base r.size) r.start v₂.segments
            (rw e (lookup-shrunk_inside u r.base lt inside)) (start (omega arith)) in
        (
          record v₂ { segments = t },
          rw (lt→ltb s.base r.base lt, pushed, published),
          record {
            held = rw (added, e) (insert_sorted-shrunk u (taken s r.base r.size) r.base lt inside);
            quantum = same.quantum;
            total = same.total;
            used = same.used;
          },
        )

    -- The new tag takes the segment's place.
    take_start-whole :
        s.base ≡ r.base
        → (w : Vmem T) × (take_start T v s.base s r ≡ done w)
          × Holds w (before ++ ((r.base, taken s r.base r.size) ∷ after))
    unfolding take_start
    take_start-whole e = (
      set_tag T v s.base (record s { size = r.size; free = false }),
      ground arith,
      record {
        held =
            entries-set_tag (record s { size = r.size; free = false })
            ∙ ap (λ b. before ++ ((b, taken s b r.size) ∷ after)) e;
        quantum = refl;
        total = refl;
        used = refl;
      },
    )

    take_start-done :
        (w : Vmem T) × (take_start T v s.base s r ≡ done w)
        × Holds w (before ++ (front s r.base ++ ((r.base, taken s r.base r.size) ∷ after)))
    take_start-done = elim (Bool-cases (ltb s.base r.base)) [
      | inl p ↦ rw p (take_start-split (ltb→lt s.base r.base p))
      | inr p ↦ rw p (take_start-whole (ground arith))
    ]

    -- What stands in front of the new tag.
    abbrev ahead : Tags
    ahead = before ++ front s r.base

    ahead-Tiles : Tiles lo ahead r.base
    ahead-Tiles = Tiles-append before (front s r.base) lo s.base r.base left (ground arith)

    abbrev fresh : Segment
    fresh = taken s r.base r.size

    abbrev leftover : Segment
    leftover = record {
      base = r.base + r.size;
      size = end s - r.base - r.size;
      span = s.span;
      free = true;
    }

    module _ (w : Vmem T) (h : Holds w (ahead ++ ((r.base, fresh) ∷ after))) where
      lookup-behind :
          (ts : Tags)
          → lookup (r.base + r.size) (ahead ++ ((r.base, fresh) ∷ ts)) ≡ lookup (r.base + r.size) ts
      lookup-behind ts = rw (
        lookup-after ahead ((r.base, fresh) ∷ ts) (r.base + r.size) lo r.base ahead-Tiles
            (omega arith),
        ==_ne r.base (r.base + r.size) (omega arith),
      )

      insert_sorted-behind :
          r.base + r.size < end s
          → insert_sorted (r.base + r.size) leftover (ahead ++ ((r.base, fresh) ∷ after))
            ≡ ahead ++ ((r.base, fresh) ∷ (r.base + r.size, leftover) ∷ after)
      insert_sorted-behind lt =
          rw
            (
              insert_sorted-after ahead ((r.base, fresh) ∷ after) (r.base + r.size) leftover lo
                  r.base ahead-Tiles (omega arith),
              insert_sorted-before after (r.base + r.size) leftover (end s) hi right lt,
            )
            (ground arith)

      take_end-split :
          r.base + r.size < end s
          → (x : Vmem T) × (take_end T w s r ≡ done x)
            × Holds x (ahead ++ ((r.base, fresh) ∷ (r.base + r.size, leftover) ∷ after))
      unfolding take_end
      take_end-split lt =
          let (t, published, added) =
            publish-done T (r.base + r.size) leftover r.trailing w.segments
              (rw (h.held, lookup-behind after)
                (lookup-before after (r.base + r.size) (end s) hi right lt))
              (trailing (omega arith)) in
          let e : entries t ≡ ahead ++ ((r.base, fresh) ∷ (r.base + r.size, leftover) ∷ after) =
            added
            ∙ ap (insert_sorted (r.base + r.size) leftover) h.held
            ∙ insert_sorted-behind lt in
          let (x, pushed, same) =
            push_free-done T (record w { segments = t }) (r.base + r.size) leftover
              (rw (e, lookup-behind ((r.base + r.size, leftover) ∷ after), ==_refl)) in
          (
            x,
            rw (lt→ltb (r.base + r.size) (end s) lt, published) pushed,
            record {
              held = ap entries same.segments ∙ e;
              quantum = same.quantum ∙ h.quantum;
              total = same.total ∙ h.total;
              used = same.used ∙ h.used;
            },
          )

      take_end-none : ltb (r.base + r.size) (end s) ≡ false → take_end T w s r ≡ done w
      unfolding take_end
      take_end-none p = rw p

      take_end-done :
          (x : Vmem T) × (take_end T w s r ≡ done x)
          × Holds x (ahead ++ ((r.base, fresh) ∷ (rear s r.base r.size ++ after)))
      take_end-done = elim (Bool-cases (ltb (r.base + r.size) (end s))) [
        | inl p ↦ rw p (take_end-split (ltb→lt (r.base + r.size) (end s) p))
        | inr p ↦ rw p (w, take_end-none p, h)
      ]

  -- The tags T of an arena that lists the same ones are located alike.
  abbrev relocate :
      {lo hi k : ℕ} {s : Segment} (v w : Vmem T)
      → w.segments ≡ v.segments
      → Located lo (tags T v) hi k s
      → Located lo (tags T w) hi k s
  relocate v w e l = record {
    before = l.before;
    after = l.after;
    parts = ap entries e ∙ l.parts;
    base = l.base;
    left = l.left;
    size = l.size;
    right = l.right;
  }

  pub lookup-Located :
      {lo hi k : ℕ} {s : Segment} (L : Tags) → Located lo L hi k s → lookup k L ≡ some s
  lookup-Located {lo} {hi} {k} {s} L l =
      rw (l.parts, lookup-after l.before ((k, s) ∷ l.after) k lo k l.left (omega arith), ==_refl)

  -- `take` returns, with the tags T of the pieces in the segment's place.
  pub take_segment-done :
      (v : Vmem T) (s : Segment) (r : Reservation) (lo hi : ℕ)
      → (l : Located lo (tags T v) hi s.base s) → s.base ≤ r.base
      → 0 < r.size
      → r.base + r.size ≤ end s
      → (r.base ≢ s.base → r.start ≡ some r.base)
      → (r.base + r.size ≢ end s → r.trailing ≡ some (r.base + r.size))
      → (x : Vmem T) × (take_segment T v s.base r ≡ done x)
        × (tags T x ≡ l.before ++ (pieces s r.base r.size ++ l.after))
        × (x.quantum ≡ v.quantum)
        × (x.total ≡ v.total)
        × (x.used ≡ v.used + r.size)
  unfolding take_segment
  take_segment-done v s r lo hi l from some_size within start trailing =
      let found : lookup s.base (tags T v) ≡ some s = lookup-Located (tags T v) l in
      let (v₁, popped, same) = pop_free-done T v s.base s found in
      let l₁ : Located lo (tags T v₁) hi s.base s = relocate v v₁ same.segments l in
      let (v₂, started, h₂) =
        take_start-done v₁ s r lo hi l₁ from some_size within start trailing in
      let regroup : (ts : Tags)
          → l.before ++ (front s r.base ++ ts) ≡ (l.before ++ front s r.base) ++ ts =
        λ ts. sym (append_assoc l.before (front s r.base) ts) in
      let (v₃, ended, h₃) =
        take_end-done v₁ s r lo hi l₁ from some_size within start trailing v₂ (record {
          held = h₂.held ∙ regroup _;
          quantum = h₂.quantum;
          total = h₂.total;
          used = h₂.used;
        }) in
      (
        record v₃ { used = v₃.used + r.size },
        rw (tag-done T v s.base s found, popped, started, ended),
        h₃.held
            ∙ sym (regroup _)
            ∙ ap (λ ts. l.before ++ ts)
                (sym (
                  append_assoc (front s r.base)
                    ((r.base, taken s r.base r.size) ∷ rear s r.base r.size) l.after)),
        h₃.quantum ∙ same.quantum,
        h₃.total ∙ same.total,
        ap (λ u. u + r.size) (h₃.used ∙ same.used),
      )
