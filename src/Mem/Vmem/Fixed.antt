-- ===== src/Mem/Vmem/Fixed.antt =====
-- `Vmem::alloc_fixed` of kernel/src/mem/vmem.rs, by its outcomes.
use roanix.Prelude.{ℕ, ◌+◌, ◌≤◌, ◌≡◌, Bool, false, ◌&&◌, none, inl, inr}
use roanix.Prelude.Outcomes.{done, fail, panic}
use roanix.Mem.Index.{OrderedTree}
use roanix.Mem.Vmem.Arena.{no_space, no_memory, invalid, Run, Segment, Vmem, covering, fixed_size}
use roanix.Mem.Vmem.Alloc.{alloc_fixed}
use roanix.Mem.Vmem.Allocates.{IsArena, Allocates, take_segment-Allocates}
use roanix.Mem.Vmem.Placing.{fixed_size-done, fixed_size-cases, covering-cases, prepare_take-cases}

module _ (T : OrderedTree Segment) where
  -- What a caller of `alloc_fixed` may rely on, by the outcome.
  abbrev pub FixedPost : (ℕ → Bool) → Vmem T → ℕ → ℕ → Run (Vmem T) → Type 0
  FixedPost pool v base size (done w) =
      (n : ℕ) × (fixed_size T v base size ≡ done n) × (size ≤ n) × Allocates T v w base n
  FixedPost pool v base size (fail no_space) =
      (n : ℕ) × (fixed_size T v base size ≡ done n) × (covering T v base (base + n) ≡ done none)
  FixedPost pool v base size (fail no_memory) =
      (n : ℕ) × (fixed_size T v base size ≡ done n) × ((pool base && pool (base + n)) ≡ false)
  FixedPost pool v base size (fail invalid) = fixed_size T v base size ≡ fail invalid
  FixedPost pool v base size panic = ⊥

  pub alloc_fixed_lem :
      (pool : ℕ → Bool) (v : Vmem T) (base size : ℕ)
      → IsArena T v
      → FixedPost pool v base size (alloc_fixed T pool v base size)
  unfolding alloc_fixed
  alloc_fixed_lem pool v base size valid = elim (fixed_size-cases T v base size) [
    | inl e ↦ rw (e) e
    | inr (n, e) ↦
        let (pos, ge, top) = fixed_size-done T v base size n valid.quantum e in
        elim (covering-cases T v valid base (base + n)) [
          | inl c ↦ rw (e, c) (n, e, c)
          | inr (s, c, found, free, from, stop) ↦
              elim (prepare_take-cases T v valid pool s base n found from pos stop) [
                | inl (p, no_node) ↦ rw (e, c, p) (n, e, no_node)
                | inr (r, p, at_base, at_size, serves) ↦
                    let (w, taken, result) =
                      take_segment-Allocates T v valid s r found free serves in
                    rw (e, c, p, taken) (n, e, ge, rw (at_base, at_size) at result)
              ]
        ]
  ]
