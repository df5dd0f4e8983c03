-- ===== src/Mem/Vmem/Allocates.antt =====
-- What an allocation of kernel/src/mem/vmem.rs means for the map from addresses to their status,
-- and that `take` is one.
use roanix.Prelude.{
  ℕ, ◌+◌, ◌≤◌, ◌<◌, ◌≡◌, refl, true, false, ◌&&◌, some, ◌∷◌, ◌++◌, ltb, leb, if◌then◌else◌, arith,
  ◌≢◌, u64_max,
}
use roanix.Prelude.Outcomes.{done}
use roanix.Mem.Index.{OrderedTree}
use roanix.Mem.Index.Assoc.{lookup}
use roanix.Mem.Vmem.Arena.{Segment, end, Vmem}
use roanix.Mem.Vmem.Take.{Reservation, take_segment}
use roanix.Mem.Vmem.Tiles.{
  Tiles, status, allocated, spanned, or_else, Located, locate, Tiles-append, status-append,
  allocated-append, spanned-append, status_after, lookup-after,
}
use roanix.Mem.Vmem.Pieces.{
  tags, taken, pieces, pieces-Tiles, status-pieces, allocated-pieces, spanned-pieces,
}
use roanix.Mem.Vmem.Taking.{take_segment-done}

module _ (T : OrderedTree Segment) where
  -- The tags lie in the address space without overlap, and the counters are their sums.
  pub record IsArena (v : Vmem T) : Type 0 where
    pub tiles : Tiles 0 (tags T v) u64_max
    pub used : v.used ≡ allocated (tags T v)
    pub total : v.total ≡ spanned (tags T v)
    pub quantum : 0 < v.quantum

  -- `w` is `v` with the free bytes of the range allocated, and nothing else changed.
  pub record Allocates (v w : Vmem T) (base size : ℕ) : Type 0 where
    pub valid : IsArena w
    pub was_free : (a : ℕ) → base ≤ a → a < base + size → status (tags T v) a ≡ some true
    pub status_lem :
        (a : ℕ)
        → status (tags T w) a
          ≡ (if leb base a && ltb a (base + size) then some false else status (tags T v) a)
    pub tag :
        (span : ℕ) × (lookup base (tags T w)
          ≡ some (record { base = base; size = size; span = span; free = false }))
    pub used : w.used ≡ v.used + size
    pub total : w.total ≡ v.total
    pub quantum : w.quantum ≡ v.quantum

  -- A reservation serves a placement in `s` if it has each node that the placement needs.
  pub record Serves (s : Segment) (r : Reservation) : Type 0 where
    pub from : s.base ≤ r.base
    pub some_size : 0 < r.size
    pub within : r.base + r.size ≤ end s
    pub start : r.base ≢ s.base → r.start ≡ some r.base
    pub trailing : r.base + r.size ≢ end s → r.trailing ≡ some (r.base + r.size)

  module _ (v : Vmem T) (valid : IsArena v) where
    module _ (s : Segment) (base size : ℕ) (l : Located 0 (tags T v) u64_max s.base s)
        (free : s.free ≡ true) (from : s.base ≤ base) (some_size : 0 < size)
        (within : base + size ≤ end s) (w : Vmem T)
        (e : tags T w ≡ l.before ++ (pieces s base size ++ l.after)) where
      open l use {before, after, parts, left, right}

      taken-Tiles : Tiles 0 (tags T w) u64_max
      taken-Tiles = rw e (
          Tiles-append before (pieces s base size ++ after) 0 s.base u64_max left (
            Tiles-append (pieces s base size) after s.base (end s) u64_max
              (pieces-Tiles s base size free from some_size within) right))

      status-v :
          (a : ℕ) → status (tags T v) a ≡ or_else (status before a) (status ((s.base, s) ∷ after) a)
      status-v a = rw parts (status-append before ((s.base, s) ∷ after) a)

      status-w :
          (a : ℕ)
          → status (tags T w) a
            ≡ or_else (status before a) (or_else (status (pieces s base size) a) (status after a))
      status-w a = rw (
        e,
        status-append before (pieces s base size ++ after) a,
        status-append (pieces s base size) after a,
      )

      status-taken :
          (a : ℕ)
          → status (tags T w) a
            ≡ (if leb base a && ltb a (base + size) then some false else status (tags T v) a)
      unfolding status or_else
      status-taken a =
          rw (status-w a, status-v a, status-pieces s base size free from some_size within a)
            (ground (arith, status_after before a 0 s.base left))

      was_free-taken : (a : ℕ) → base ≤ a → a < base + size → status (tags T v) a ≡ some true
      unfolding status or_else
      was_free-taken a p q =
          rw (status-v a, status_after before a 0 s.base left (omega arith)) (ground arith)

      lookup-taken : lookup base (tags T w) ≡ some (taken s base size)
      lookup-taken =
          rw (e, lookup-after before (pieces s base size ++ after) base 0 s.base left from)
            (ground arith)

      allocated_one : allocated ((s.base, s) ∷ after) ≡ allocated after
      unfolding allocated
      allocated_one = ground arith

      spanned_one : spanned ((s.base, s) ∷ after) ≡ s.size + spanned after
      unfolding spanned
      spanned_one = refl

      allocated-taken : allocated (tags T w) ≡ allocated (tags T v) + size
      allocated-taken =
          rw (e, parts)
            (omega (
              arith,
              allocated-append before (pieces s base size ++ after),
              allocated-append (pieces s base size) after,
              allocated-append before ((s.base, s) ∷ after),
              allocated-pieces s base size free from some_size within,
              allocated_one,
            ))

      spanned-taken : spanned (tags T w) ≡ spanned (tags T v)
      spanned-taken =
          rw (e, parts)
            (omega (
              arith,
              spanned-append before (pieces s base size ++ after),
              spanned-append (pieces s base size) after,
              spanned-append before ((s.base, s) ∷ after),
              spanned-pieces s base size free from some_size within,
              spanned_one,
            ))

      pub Allocates-taken :
          w.quantum ≡ v.quantum
          → w.total ≡ v.total
          → w.used ≡ v.used + size
          → Allocates v w base size
      Allocates-taken q t u = record {
        valid = record {
          tiles = taken-Tiles;
          used = omega (arith, valid.used, allocated-taken);
          total = omega (arith, valid.total, spanned-taken);
          quantum = rw q valid.quantum;
        };
        was_free = was_free-taken;
        status_lem = status-taken;
        tag = (s.span, lookup-taken);
        used = u;
        total = t;
        quantum = q;
      }

    -- `take` never stops the kernel where the reservation serves, and allocates its range.
    pub take_segment-Allocates :
        (s : Segment) (r : Reservation)
        → lookup s.base (tags T v) ≡ some s
        → s.free ≡ true
        → Serves s r
        → (w : Vmem T) × (take_segment T v s.base r ≡ done w) × Allocates v w r.base r.size
    take_segment-Allocates s r e free g =
        let l = locate (tags T v) s.base s 0 u64_max valid.tiles e in
        let (w, taken, held, q, t, u) =
          take_segment-done T v s r 0 u64_max l g.from g.some_size g.within g.start g.trailing in
        (w, taken, Allocates-taken s r.base r.size l free g.from g.some_size g.within w held q t u)
