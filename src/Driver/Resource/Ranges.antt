-- ===== src/Driver/Resource/Ranges.antt =====
-- The arithmetic and the lookups of kernel/src/driver/core/resource.rs.
use roanix.Prelude.{
  ℕ, zero, suc, ◌+◌, ◌-◌, ◌≤◌, ◌<◌, ◌^◌, ◌≡◌, refl, true, none, some, List, [], ◌∷◌, ◌++◌, length,
  length-append, ◌==◌, ==_refl, if◌then◌else◌, arith, Bool-cases, inl, inr, ok, u64_max,
}
use roanix.Driver.Resource.{Resource, new, validate, last, covers, push, find}

-- A resource that `new` makes passes `validate`, and its range ends at `2 ^ 64` at most. The sum in
-- `end` is in range, and `end` is its last unit, unless the range ends at `2 ^ 64`, where the sum
-- overflows.
pub new-last :
    (kind flags start size : ℕ) (r : Resource)
    → new kind flags start size ≡ ok r
    → (validate r ≡ ok tt)
      × (r.start ≡ start)
      × (r.size ≡ size)
      × (start + size ≤ 2 ^ 64)
      × (last r ≡ (if start + size == 2 ^ 64 then none else some (start + size - 1)))
unfolding new validate last
new-last kind flags start size r e = ground arith

-- What a valid resource covers lies within its range, so its addresses do not overflow.
covers-last :
    (r : Resource) (offset len : ℕ)
    → validate r ≡ ok tt
    → covers r offset len ≡ true
    → (0 < len)
      × (r.start + offset ≤ u64_max)
      × (r.start + offset + len ≤ r.start + r.size)
      × (r.start + r.size ≤ 2 ^ 64)
unfolding validate covers
covers-last r offset len v e = ground arith

-- How many resources are of a kind.
unfoldable pub count : ℕ → List Resource → ℕ
count kind [] = 0
count kind (r ∷ rs) = if r.kind == kind then suc (count kind rs) else count kind rs

find-append :
    (rs : List Resource) (r : Resource) → find (rs ++ (r ∷ [])) r.kind (count r.kind rs) ≡ some r
unfolding find count
find-append [] r = rw ==_refl refl
find-append (q ∷ rs) r = elim (Bool-cases (q.kind == r.kind)) [
  | inl e ↦ rw (find, e) (find-append rs r)
  | inr e ↦ rw (find, e) (find-append rs r)
]

find-before :
    (rs : List Resource) (r : Resource) (kind index : ℕ)
    → index < count kind rs
    → find (rs ++ (r ∷ [])) kind index ≡ find rs kind index
unfolding find count
find-before [] r kind index h = elim h [ ]
find-before (q ∷ rs) r kind zero h = elim (Bool-cases (q.kind == kind)) [
  | inl e ↦ rw (find, e) refl
  | inr e ↦ rw (find, e) (find-before rs r kind 0 (rw e at h))
]
find-before (q ∷ rs) r kind (suc i) h = elim (Bool-cases (q.kind == kind)) [
  | inl e ↦ let h' = rw e at h in rw (find, e) (find-before rs r kind i (omega arith))
  | inr e ↦ rw (find, e) (find-before rs r kind (suc i) (rw e at h))
]

push-ok :
    (entries : List Resource) (r : Resource) (index : ℕ) (rest : List Resource)
    → push entries r ≡ ok (index, rest)
    → (index ≡ length entries) × (rest ≡ entries ++ (r ∷ [])) × (length entries < 64)
unfolding push
push-ok entries r index rest e = ground arith

-- A builder takes 64 resources at most. One that it takes is found by its kind, behind those of its
-- kind from before, which are found at the places where they were.
find-push :
    (entries : List Resource) (r : Resource) (index : ℕ) (rest : List Resource) (kind i : ℕ)
    → push entries r ≡ ok (index, rest)
    → i < count kind entries
    → (length rest ≤ 64)
      × (find rest r.kind (count r.kind entries) ≡ some r)
      × (find rest kind i ≡ find entries kind i)
find-push entries r index rest kind i e h =
    let (_, grown, fits) = push-ok entries r index rest e in
    rw grown (
      omega (arith, length-append entries (r ∷ [])),
      find-append entries r,
      find-before entries r kind i h,
    )
