-- ===== src/Mem/Phys/Search.antt =====
-- kernel/src/mem/phys.rs: how alloc_contiguous looks for a run of free frames.
pub mod Runs
use roanix.Prelude.{
  ℕ, zero, suc, ◌+◌, ◌-◌, ◌*◌, ◌/◌, ◌%◌, ◌≤◌, ◌<◌, ◌≡◌, inl, inr, subst, max, Bool, true, false,
  Option, none, some, ltb, leb, ◌==◌, if◌then◌else◌, arith, Bool-cases, Option-cases,
}

-- `usize::next_multiple_of`
unfoldable pub align_index : ℕ → ℕ → ℕ
align_index index align = if index % align == 0 then index else index + (align - index % align)

-- How many frames from `index` on are usable, up to `count`.
unfoldable pub run_length : ℕ → (ℕ → Bool) → ℕ → ℕ
run_length zero usable index = 0
run_length (suc n) usable index =
    let longer = suc (run_length n usable (index + 1)) in if usable index then longer else 0

-- The loop over starting points; none where the fuel runs out.
unfoldable pub search : ℕ → (ℕ → Bool) → (ℕ → Option ℕ) → ℕ → ℕ → ℕ → ℕ → Option (Option ℕ)
unfolding align_index run_length
search zero usable following count align entries start = none
search (suc n) usable following count align entries start = elim (ltb entries (start + count)) [
  | true ↦ some none
  | false ↦ elim (following start) [
    | none ↦ some none
    | some m ↦
        let from = align_index m align in
        let run = run_length count usable from in
        let later =
          search n usable following count align entries
            (align_index (max (from + run) from + 1) align) in
        if ltb entries (from + count)
        then some none
        else if run == count
        then some (some from)
        else later
  ]
]
