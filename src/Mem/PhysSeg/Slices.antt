-- ===== src/Mem/PhysSeg/Slices.antt =====
-- kernel/src/mem/physseg.rs: each frame of a segment has an index of its own.
use roanix.Prelude.{
  ℕ, ◌+◌, ◌-◌, ◌≤◌, ◌<◌, max, ◌≡◌, refl, inl, inr, ◌⊎◌, Bool, true, false, ◌&&◌, ◌||◌, Option, none,
  some, List, [], ◌∷◌, leb, ltb, if◌then◌else◌, arith, Bool-cases, sym, subst, ◌∙◌, ◌^◌,
}
use roanix.Mem.PhysSeg.{
  Segment, IsLaidOut, total_frames, assign, before, initialize, lookup, index_in, found_before,
  partition_point, next, at_or_after, sort_by_start, insert_by_start,
}

lookup-cases :
    (s : Segment) (ss : List Segment) (pfn : ℕ) {i : ℕ}
    → lookup (s ∷ ss) pfn ≡ some i
    → (s.start ≤ pfn)
      × ((lookup ss pfn ≡ some i) ⊎ ((pfn < s.stop) × (i ≡ s.first + pfn - s.start)))
unfolding lookup partition_point found_before index_in
lookup-cases s ss pfn e = ground arith

total_frames-ge : (count : ℕ) (ss : List Segment) → count ≤ total_frames count ss
total_frames-ge count [] = omega arith
total_frames-ge count (s ∷ ss) = omega (arith, total_frames-ge (count + (s.stop - s.start)) ss)

lookup-nil : (pfn : ℕ) → lookup [] pfn ≡ none
unfolding lookup partition_point found_before
lookup-nil pfn = refl

-- The index of a frame lies in its segment's slice.
pub lookup-bounds :
    (low count : ℕ) (ss : List Segment) (pfn : ℕ) {i : ℕ}
    → IsLaidOut low count ss
    → lookup ss pfn ≡ some i
    → (low ≤ pfn) × (count ≤ i) × (i < total_frames count ss)
lookup-bounds low count [] pfn v e = ground (arith, lookup-nil pfn)
lookup-bounds low count (s ∷ ss) pfn v e =
    let ge = total_frames-ge (count + (s.stop - s.start)) ss in
    let (starts, c) = lookup-cases s ss pfn e in
    elim c [
      | inl later ↦
          omega (arith, v, lookup-bounds s.stop (count + (s.stop - s.start)) ss pfn v.3 later)
      | inr (within, at) ↦ omega (arith, v, ge)
    ]

-- No two frames share an entry of the database.
pub lookup-injective :
    (low count : ℕ) (ss : List Segment) (a b : ℕ) {i : ℕ}
    → IsLaidOut low count ss
    → lookup ss a ≡ some i
    → lookup ss b ≡ some i
    → a ≡ b
lookup-injective low count [] a b v e f = ground (arith, lookup-nil a)
lookup-injective low count (s ∷ ss) a b v e f =
    let rest = count + (s.stop - s.start) in
    let (a_starts, c) = lookup-cases s ss a e in
    let (b_starts, d) = lookup-cases s ss b f in
    elim c [
      | inl a_later ↦ elim d [
        | inl b_later ↦ lookup-injective s.stop rest ss a b v.3 a_later b_later
        | inr (within, at) ↦ absurd (omega (arith, v, lookup-bounds s.stop rest ss a v.3 a_later))
      ]
      | inr (within, at) ↦ elim d [
        | inl b_later ↦ absurd (omega (arith, v, lookup-bounds s.stop rest ss b v.3 b_later))
        | inr (b_within, b_at) ↦ omega (arith, v)
      ]
    ]

next-nil : (pfn : ℕ) → next [] pfn ≡ none
unfolding next partition_point at_or_after
next-nil pfn = refl

next-cases :
    (s : Segment) (ss : List Segment) (pfn : ℕ)
    → next (s ∷ ss) pfn ≡ (if leb s.stop pfn then next ss pfn else some (max pfn s.start))
unfolding next partition_point at_or_after
next-cases s ss pfn = ground arith

-- `next` skips no frame.
pub next-lookup :
    (low count : ℕ) (ss : List Segment) (from pfn : ℕ) {i : ℕ}
    → IsLaidOut low count ss
    → lookup ss pfn ≡ some i
    → from ≤ pfn
    → (m : ℕ) × (next ss from ≡ some m) × (from ≤ m) × (m ≤ pfn)
next-lookup low count [] from pfn v e h = ground (arith, lookup-nil pfn)
next-lookup low count (s ∷ ss) from pfn v e h =
    let (starts, c) = lookup-cases s ss pfn e in
    elim (Bool-cases (leb s.stop from)) [
      | inl past ↦ elim c [
        | inl later ↦
            rw (next-cases s ss from, past)
              (next-lookup s.stop (count + (s.stop - s.start)) ss from pfn v.3 later h)
        | inr (within, at) ↦ absurd (ground arith)
      ]
      | inr here ↦
          rw (next-cases s ss from, here) (max from s.start, refl, omega arith, omega arith)
    ]

pub next-ge : (ss : List Segment) (from : ℕ) {m : ℕ} → next ss from ≡ some m → from ≤ m
next-ge [] from e = ground (arith, next-nil from)
next-ge (s ∷ ss) from {m} e = ground (arith, next-cases s ss from, next-ge ss from {m = m})

-- Whether a segment of the list holds the frame.
abbrev pub holds : ℕ → List Segment → Bool
holds pfn [] = false
holds pfn (s ∷ ss) = (leb s.start pfn && ltb pfn s.stop) || holds pfn ss

holds-insert_by_start :
    (pfn : ℕ) (s : Segment) (ss : List Segment)
    → holds pfn (insert_by_start s ss) ≡ holds pfn (s ∷ ss)
unfolding insert_by_start
holds-insert_by_start pfn s [] = refl
holds-insert_by_start pfn s (t ∷ ts) = ground (arith, holds-insert_by_start pfn s ts)

holds-sort_by_start : (pfn : ℕ) (ss : List Segment) → holds pfn (sort_by_start ss) ≡ holds pfn ss
unfolding sort_by_start
holds-sort_by_start pfn [] = refl
holds-sort_by_start pfn (s ∷ ss) =
    ground (arith, holds-insert_by_start pfn s (sort_by_start ss), holds-sort_by_start pfn ss)

-- What the loop returns is laid out, with the same frames.
abbrev IsAssigned : ℕ → ℕ → List Segment → Option (List Segment × ℕ) → Type 0
IsAssigned low count ss none = Unit {0}
IsAssigned low count ss (some (r, n)) =
    IsLaidOut low count r × (n ≡ total_frames count r) × ((pfn : ℕ) → holds pfn r ≡ holds pfn ss)

before-IsAssigned :
    (s : Segment) (ss : List Segment) (low count : ℕ) (o : Option (List Segment × ℕ))
    → low ≤ s.start
    → s.start < s.stop
    → IsAssigned s.stop (count + (s.stop - s.start)) ss o
    → IsAssigned low count (s ∷ ss) (before (record s { first = count }) o)
unfolding before
before-IsAssigned s ss low count none above size v = tt
before-IsAssigned s ss low count (some (r, n)) above size v =
    ((above, size, refl, v.0), v.1, λ pfn. rw (v.2 pfn))

assign-IsAssigned :
    (ss : List Segment) (count previous_end : ℕ)
    → IsAssigned previous_end count ss (assign ss count previous_end)
unfolding assign
assign-IsAssigned [] count previous_end = (tt, refl, λ pfn. refl)
assign-IsAssigned (s ∷ ss) count previous_end =
    elim (Bool-cases (leb previous_end s.start && ltb s.start s.stop)) [
      | inl fits ↦ elim (Bool-cases (ltb (count + (s.stop - s.start)) (2 ^ 64))) [
        | inl small ↦
            rw (fits, small)
              (before-IsAssigned s ss previous_end count
                (assign ss (count + (s.stop - s.start)) s.stop) (ground arith) (ground arith)
                (assign-IsAssigned ss (count + (s.stop - s.start)) s.stop))
        | inr large ↦ rw (fits, large) tt
      ]
      | inr unfit ↦ rw unfit tt
    ]

partition_point-above :
    (low count : ℕ) (ss : List Segment) (pfn : ℕ)
    → IsLaidOut low count ss
    → pfn < low
    → partition_point (λ s. leb s.start pfn) ss ≡ 0
unfolding partition_point
partition_point-above low count [] pfn v h = refl
partition_point-above low count (s ∷ ss) pfn v h = ground arith

lookup-later :
    (s : Segment) (ss : List Segment) (pfn : ℕ) {i : ℕ}
    → s.start ≤ pfn
    → lookup ss pfn ≡ some i
    → lookup (s ∷ ss) pfn ≡ some i
unfolding lookup partition_point found_before index_in
lookup-later s ss pfn h e = ground arith

lookup-here :
    (s : Segment) (ss : List Segment) (pfn : ℕ)
    → s.start ≤ pfn
    → pfn < s.stop
    → partition_point (λ t. leb t.start pfn) ss ≡ 0
    → lookup (s ∷ ss) pfn ≡ some (s.first + pfn - s.start)
unfolding lookup partition_point found_before index_in
lookup-here s ss pfn h k e = ground arith

-- In a list that is laid out, a frame of a segment is found.
lookup-holds :
    (low count : ℕ) (ss : List Segment) (pfn : ℕ)
    → IsLaidOut low count ss
    → holds pfn ss ≡ true
    → (low ≤ pfn) × (i : ℕ) × (lookup ss pfn ≡ some i)
lookup-holds low count [] pfn v h = cc
lookup-holds low count (s ∷ ss) pfn v h = elim (Bool-cases (leb s.start pfn && ltb pfn s.stop)) [
  | inl inside ↦ (
    ground arith,
    s.first + pfn - s.start,
    lookup-here s ss pfn (ground arith) (ground arith)
        (partition_point-above s.stop (count + (s.stop - s.start)) ss pfn v.3 (ground arith)),
  )
  | inr outside ↦
      let (above, i, e) =
        lookup-holds s.stop (count + (s.stop - s.start)) ss pfn v.3 (ground arith) in
      (omega (arith, v), i, lookup-later s ss pfn (omega (arith, v)) e)
]

holds-lookup : (ss : List Segment) (pfn : ℕ) {i : ℕ} → lookup ss pfn ≡ some i → holds pfn ss ≡ true
holds-lookup [] pfn e = ground (arith, lookup-nil pfn)
holds-lookup (s ∷ ss) pfn {i} e =
    ground (arith, lookup-cases s ss pfn e, holds-lookup ss pfn {i = i})

-- The frames of the segments, and their indices below `n`, stand in one-to-one correspondence.
pub record IsDatabase (segments ss : List Segment) (n : ℕ) : Type 0 where
  pub laid_out : IsLaidOut 0 0 segments
  pub finds : (pfn : ℕ) → holds pfn ss ≡ true → (i : ℕ) × (lookup segments pfn ≡ some i)
  pub within : (pfn i : ℕ) → lookup segments pfn ≡ some i → (holds pfn ss ≡ true) × (i < n)
  pub apart : (a b i : ℕ) → lookup segments a ≡ some i → lookup segments b ≡ some i → a ≡ b

database :
    (ss r : List Segment) (n : ℕ)
    → IsAssigned 0 0 (sort_by_start ss) (some (r, n))
    → IsDatabase r ss n
database ss r n v = record {
  laid_out = v.0;
  finds = λ pfn h.
      let (above, i, e) = lookup-holds 0 0 r pfn v.0 (v.2 pfn ∙ holds-sort_by_start pfn ss ∙ h) in
      (i, e);
  within = λ pfn i e. (
    sym (holds-sort_by_start pfn ss) ∙ sym (v.2 pfn) ∙ holds-lookup r pfn e,
    omega (arith, lookup-bounds 0 0 r pfn v.0 e, v.1),
  );
  apart = λ a b i e f. lookup-injective 0 0 r a b v.0 e f;
}

-- Where `initialize` accepts the segments, in any order, `lookup` finds an index below the number
-- of frames for exactly the frames of the segments, and different frames have different indices.
pub initialize-IsDatabase :
    (ss : List Segment) {r : List Segment} {n : ℕ} → initialize ss ≡ some (r, n) → IsDatabase r ss n
unfolding initialize
initialize-IsDatabase ss {r} {n} e =
    database ss r n
      (subst (IsAssigned 0 0 (sort_by_start ss)) e (assign-IsAssigned (sort_by_start ss) 0 0))
