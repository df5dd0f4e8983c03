-- ===== src/Mem/Vmem/RoundTrip.antt =====
-- An allocation of kernel/src/mem/vmem.rs that is given back.
use roanix.Prelude.{ℕ, ◌≡◌, ◌≤◌, refl, Bool, false, arith}
use roanix.Prelude.Outcomes.{done}
use roanix.Mem.Index.{OrderedTree}
use roanix.Mem.Vmem.Arena.{Segment, Vmem}
use roanix.Mem.Vmem.Alloc.{alloc_fixed}
use roanix.Mem.Vmem.Release.{free}
use roanix.Mem.Vmem.Tiles.{status}
use roanix.Mem.Vmem.Pieces.{tags}
use roanix.Mem.Vmem.Allocates.{IsArena, Allocates}
use roanix.Mem.Vmem.Fixed.{FixedPost, alloc_fixed_lem}
use roanix.Mem.Vmem.Freeing.{Frees, free-Frees}
use mathlib.Core.Path.{subst}

module _ (T : OrderedTree Segment) where
  -- The arena after a range was allocated and given back.
  pub record Restores (v x : Vmem T) : Type 0 where
    pub valid : IsArena T x
    pub status_lem : (a : ℕ) → status (tags T x) a ≡ status (tags T v) a
    pub used : x.used ≡ v.used

  Restores-Frees :
      (v w x : Vmem T) (base n : ℕ) → Allocates T v w base n → Frees T w x base n → Restores v x
  Restores-Frees v w x base n a f = record {
    valid = f.valid;
    status_lem = λ b. ground (arith, a.status_lem b, f.status_lem b, a.was_free b);
    used = omega (arith, a.used, f.used);
  }

  -- A range that `alloc_fixed` has allocated can be given back by its base: `free` returns its
  -- rounded size, and every byte has the status that it had before the allocation.
  pub free-alloc_fixed :
      (pool : ℕ → Bool) (v w : Vmem T) (base size : ℕ)
      → IsArena T v
      → alloc_fixed T pool v base size ≡ done w
      → (n : ℕ) × (x : Vmem T) × (free T w base ≡ done (n, x)) × (size ≤ n) × Restores v x
  free-alloc_fixed pool v w base size valid e =
      let (n, fixed, ge, a) =
        subst (FixedPost T pool v base size) e (alloc_fixed_lem T pool v base size valid) in
      let s : Segment = record { base = base; size = n; span = a.tag.0; free = false } in
      let (x, freed, f) = free-Frees T w s a.valid a.tag.1 refl in
      (n, x, freed, ge, Restores-Frees v w x base n a f)
