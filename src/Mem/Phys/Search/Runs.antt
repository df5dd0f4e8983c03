-- ===== src/Mem/Phys/Search/Runs.antt =====
-- kernel/src/mem/phys.rs: what the search of alloc_contiguous finds.
use roanix.Prelude.{
  ℕ, zero, suc, ◌+◌, ◌-◌, ◌*◌, ◌/◌, ◌%◌, ◌≤◌, ◌<◌, ◌≡◌, inl, inr, subst, max, Bool, true, false,
  Option, none, some, ltb, leb, ◌==◌, arith, Bool-cases, Option-cases,
}
use roanix.Mem.Phys.Search.{align_index, run_length, search}

abbrev pub IsMultiple : ℕ → ℕ → Type 0
IsMultiple align n = (k : ℕ) × (n ≡ k * align)

align_index-ge : (index align : ℕ) → index ≤ align_index index align
unfolding align_index
align_index-ge index align = ground arith

align_index-IsMultiple : (index align : ℕ) → 0 < align → IsMultiple align (align_index index align)
unfolding align_index
align_index-IsMultiple index align h = elim (Bool-cases (index % align == 0)) [
  | inl even ↦ (index / align, rw (even, align_index) (grind arith))
  | inr odd ↦ (index / align + 1, rw (odd, align_index) (grind arith))
]

align_index-least :
    (index align n : ℕ) → 0 < align → IsMultiple align n → index ≤ n → align_index index align ≤ n
unfolding align_index
align_index-least index align n h (k, e) le = elim (Bool-cases (index % align == 0)) [
  | inl even ↦ rw (even, align_index) le
  | inr odd ↦ rw (odd, align_index) (grind arith)
]

-- `count` frames from `from` on are usable.
abbrev IsRun : (ℕ → Bool) → ℕ → ℕ → Type 0
IsRun usable from count = (i : ℕ) → from ≤ i → i < from + count → usable i ≡ true

run_length-le : (n : ℕ) (usable : ℕ → Bool) (index : ℕ) → run_length n usable index ≤ n
unfolding run_length
run_length-le zero usable index = omega arith
run_length-le (suc n) usable index = ground (arith, run_length-le n usable (index + 1))

run_length-IsRun :
    (n : ℕ) (usable : ℕ → Bool) (index i : ℕ)
    → index ≤ i
    → i < index + run_length n usable index
    → usable i ≡ true
unfolding run_length
run_length-IsRun zero usable index i le lt = absurd (omega arith)
run_length-IsRun (suc n) usable index i le lt = elim (Bool-cases (usable index)) [
  | inl usable_here ↦ elim (Bool-cases (i == index)) [
    | inl here ↦ ground arith
    | inr later ↦ run_length-IsRun n usable (index + 1) i (ground arith) (ground arith)
  ]
  | inr unusable ↦ absurd (ground arith)
]

-- A run that is too short ends at a frame that is not usable.
run_length-stops :
    (n : ℕ) (usable : ℕ → Bool) (index : ℕ)
    → run_length n usable index < n
    → usable (index + run_length n usable index) ≡ false
unfolding run_length
run_length-stops zero usable index lt = absurd (omega arith)
run_length-stops (suc n) usable index lt = elim (Bool-cases (usable index)) [
  | inl usable_here ↦
      rw (usable_here, run_length)
        (subst (λ x. usable x ≡ false) (omega arith)
          (run_length-stops n usable (index + 1) (ground arith)))
  | inr unusable ↦ rw (unusable, run_length) (subst (λ x. usable x ≡ false) (omega arith) unusable)
]

-- A run that alloc_contiguous may take, from `start` on.
pub record IsCandidate (usable : ℕ → Bool) (count align entries start from : ℕ) : Type 0 where
  pub from_start : start ≤ from
  pub aligned : IsMultiple align from
  pub below : from + count ≤ entries
  pub runs : IsRun usable from count

-- The answer is the lowest candidate, or none where there is no candidate.
abbrev pub Finds : (ℕ → Bool) → ℕ → ℕ → ℕ → ℕ → Option (Option ℕ) → Type 0
Finds usable count align entries start none = ⊥
Finds usable count align entries start (some none) =
    (from : ℕ) → IsCandidate usable count align entries start from → ⊥
Finds usable count align entries start (some (some b)) =
    IsCandidate usable count align entries start b
    × ((from : ℕ) → IsCandidate usable count align entries start from → b ≤ from)

moved :
    {usable : ℕ → Bool} {count align entries start other : ℕ} (from : ℕ)
    → IsCandidate usable count align entries start from
    → other ≤ from
    → IsCandidate usable count align entries other from
moved from c le = record { from_start = le; aligned = c.aligned; below = c.below; runs = c.runs }

-- An answer from a later start on stands where no candidate was passed over.
Finds-later :
    (usable : ℕ → Bool) (count align entries start next_start : ℕ) (o : Option (Option ℕ))
    → start ≤ next_start
    → ((from : ℕ) → IsCandidate usable count align entries start from → next_start ≤ from)
    → Finds usable count align entries next_start o
    → Finds usable count align entries start o
Finds-later usable count align entries start next_start none le over h = h
Finds-later usable count align entries start next_start (some none) le over h =
    λ from c. h from (moved from c (over from c))
Finds-later usable count align entries start next_start (some (some b)) le over (found, least) = (
  moved b found (omega (arith, le, found.from_start)),
  λ from c. least from (moved from c (over from c)),
)

true-ne-false : {b : Bool} → b ≡ true → b ≡ false → ⊥
true-ne-false p q = cc

module _ (usable : ℕ → Bool) (following : ℕ → Option ℕ) (count align entries : ℕ)
    (some_frames : 0 < count) (some_align : 0 < align)
    (following_ge : (from m : ℕ) → following from ≡ some m → from ≤ m)
    (following_usable : (from i : ℕ)
      → from ≤ i
      → usable i ≡ true
      → (m : ℕ) × (following from ≡ some m) × (m ≤ i)) where
  -- A candidate is not before the next frame.
  following-candidate :
      (start from : ℕ)
      → IsCandidate usable count align entries start from
      → (m : ℕ) × (following start ≡ some m) × (align_index m align ≤ from)
  following-candidate start from c =
      let (m, e, le) =
        following_usable start from c.from_start
          (c.runs from (omega arith) (omega (arith, some_frames))) in
      (m, e, align_index-least m align from some_align c.aligned le)

  -- Behind a run that is too short, no candidate before the frame that broke it was left out.
  passed_over :
      (start from m : ℕ)
      → following start ≡ some m
      → run_length count usable (align_index m align) < count
      → IsCandidate usable count align entries start from
      → align_index (align_index m align + run_length count usable (align_index m align) + 1) align
        ≤ from
  passed_over start from m e short c =
      let at = align_index m align in
      let run = run_length count usable at in
      let stops = run_length-stops count usable at short in
      let (m', e', le) = following-candidate start from c in
      let from_at : at ≤ from = subst (λ (x : ℕ). align_index x align ≤ from) (cc) le in
      elim (Bool-cases (leb from (at + run))) [
        | inl before ↦
            absurd (true-ne-false (c.runs (at + run) (ground arith) (ground arith)) stops)
        | inr behind ↦
            align_index-least (at + run + 1) align from some_align c.aligned (ground arith)
      ]

  found-candidate :
      (start m : ℕ)
      → following start ≡ some m
      → align_index m align + count ≤ entries
      → run_length count usable (align_index m align) ≡ count
      → Finds usable count align entries start (some (some (align_index m align)))
  found-candidate start m e below full = (
    record {
      from_start = omega (arith, following_ge start m e, align_index-ge m align);
      aligned = align_index-IsMultiple m align some_align;
      below = below;
      runs = λ i le lt.
          run_length-IsRun count usable (align_index m align) i le (omega (arith, lt, full));
    },
    λ from c.
        let (m', e', le) = following-candidate start from c in
        subst (λ (x : ℕ). align_index x align ≤ from) (cc) le,
  )

  pub search-Finds :
      (n start : ℕ)
      → entries - start < n
      → Finds usable count align entries start (search n usable following count align entries start)
  unfolding search
  search-Finds zero start lt = absurd (omega arith)
  search-Finds (suc n) start lt = elim (Bool-cases (ltb entries (start + count))) [
    | inl too_high ↦
        rw (too_high, search) (λ from c. absurd (ground (arith, c.from_start, c.below)))
    | inr fits ↦ elim (Option-cases (following start)) [
      | inl nothing ↦
          rw (fits, search, nothing)
            (λ from c. let (m, e, le) = following-candidate start from c in cc)
      | inr (m, e) ↦
          let from = align_index m align in
          let run = run_length count usable from in
          elim (Bool-cases (ltb entries (from + count))) [
            | inl past ↦
                rw (fits, search, e, past)
                  (λ other c.
                    let (m', e', le) = following-candidate start other c in
                    let from_other : from ≤ other =
                      subst (λ (x : ℕ). align_index x align ≤ other) (cc) le in
                    absurd (ground (arith, c.below)))
            | inr within ↦ elim (Bool-cases (run == count)) [
              | inl full ↦
                  rw (fits, search, e, within, full)
                    (found-candidate start m e (ground arith) (ground arith))
              | inr short ↦
                  let short_run : run < count = ground (arith, run_length-le count usable from) in
                  let next_start = align_index (max (from + run) from + 1) align in
                  let higher : start < next_start = omega (
                    arith,
                    following_ge start m e,
                    align_index-ge m align,
                    align_index-ge (max (from + run) from + 1) align,
                  ) in
                  rw (fits, search, e, within, short)
                    (Finds-later usable count align entries start next_start
                      (search n usable following count align entries next_start) (omega arith)
                      (λ other c.
                        subst (λ (x : ℕ). align_index (x + 1) align ≤ other) (omega arith)
                          (passed_over start other m e short_run c))
                      (search-Finds n next_start (ground arith)))
            ]
          ]
    ]
  ]
