-- ===== src/Mem/Vmem/Placing.antt =====
-- The steps of kernel/src/mem/vmem.rs before a range is taken: sizes, the covering free segment,
-- and the reserved tags.
use roanix.Prelude.{
  ℕ, suc, ◌+◌, ◌-◌, ◌≤◌, ◌<◌, ◌≡◌, refl, ap, sym, ◌∙◌, Bool, true, false, not, ◌&&◌, none, some,
  ltb, leb, ◌==◌, if◌then◌else◌, arith, Bool-cases, Option-cases, inl, inr, ◌⊎◌, u64_max, u64_mod,
  ◌%◌,
}
use roanix.Prelude.Outcomes.{done, fail}
use roanix.Prelude.Bits.{mask_down}
use native.Mathlib.Nat.{div-add-mod, mod-lt}
use roanix.Mem.Index.{OrderedTree}
use roanix.Mem.Index.Assoc.{lookup, last_below}
use roanix.Mem.Vmem.Arena.{
  no_memory, invalid, Segment, end, Vmem, covering, free_segment_containing, fixed_size, round_size,
}
use roanix.Mem.Vmem.Take.{Reservation, reserve_if, reserve_tag, prepare_take}
use roanix.Mem.Vmem.Tiles.{locate, last_below-lookup}
use roanix.Mem.Vmem.Pieces.{tags, tag-done}
use roanix.Mem.Vmem.Allocates.{IsArena, Serves}

module _ (T : OrderedTree Segment) where
  module _ (v : Vmem T) (valid : IsArena T v) where
    reserve_if-cases :
        (pool : ℕ → Bool) (b : Bool) (base : ℕ)
        → ((reserve_if T pool b base ≡ fail no_memory) × (pool base ≡ false))
          ⊎ (reserve_if T pool b base ≡ done (if b then some base else none))
    unfolding reserve_if reserve_tag
    reserve_if-cases pool false base = inr refl
    reserve_if-cases pool true base = ground arith

    pub prepare_take-cases :
        (pool : ℕ → Bool) (s : Segment) (base size : ℕ)
        → lookup s.base (tags T v) ≡ some s
        → s.base ≤ base
        → 0 < size
        → base + size ≤ end s
        → ((prepare_take T pool v s.base base size ≡ fail no_memory)
            × ((pool base && pool (base + size)) ≡ false))
          ⊎ ((r : Reservation) × (prepare_take T pool v s.base base size ≡ done r)
              × (r.base ≡ base)
              × (r.size ≡ size)
              × Serves T s r)
    unfolding prepare_take
    prepare_take-cases pool s base size e from pos within =
        let planned : Reservation = record {
          base = base;
          size = size;
          start = if not (base == s.base) then some base else none;
          trailing = if not (base + size == end s) then some (base + size) else none;
        } in
        elim (reserve_if-cases pool (not (base == s.base)) base) [
          | inl (a, f) ↦ inl (rw (tag-done T v s.base s e, a), ground arith)
          | inr a ↦ elim (reserve_if-cases pool (not (base + size == end s)) (base + size)) [
            | inl (b, f) ↦ inl (rw (tag-done T v s.base s e, a, b), ground arith)
            | inr b ↦ inr (
              planned,
              rw (tag-done T v s.base s e, a, b),
              refl,
              refl,
              record {
                from = from;
                some_size = pos;
                within = within;
                start = λ ne. ground arith;
                trailing = λ ne. ground arith;
              },
            )
          ]
        ]

    tag-previous :
        (b k : ℕ) (s : Segment)
        → last_below b (tags T v) ≡ some (k, s)
        → (k ≡ s.base) × (lookup s.base (tags T v) ≡ some s) × (s.base < b)
    tag-previous b k s e =
        let (found, below, _) = last_below-lookup (tags T v) b k s 0 u64_max valid.tiles e in
        let at_base : k ≡ s.base = (locate (tags T v) k s 0 u64_max valid.tiles found).base in
        (at_base, sym (ap (λ b. lookup b (tags T v)) at_base) ∙ found, omega arith)

    covering-previous :
        (base stop k : ℕ) (s : Segment)
        → last_below (suc base) (tags T v) ≡ some (k, s)
        → covering T v base stop
          ≡ done (if s.free && ltb base (end s) && leb stop (end s) then some s.base else none)
    unfolding covering free_segment_containing
    covering-previous base stop k s e =
        let (at_base, found, below) = tag-previous (suc base) k s e in
        elim (Bool-cases (s.free && ltb base (end s))) [
          | inl p ↦
              rw (e, covering, free_segment_containing, p, at_base, tag-done T v s.base s found)
                (ground arith)
          | inr p ↦ rw (e, covering, free_segment_containing, p) (ground arith)
        ]

    pub covering-cases :
        (base stop : ℕ)
        → (covering T v base stop ≡ done none)
          ⊎ ((s : Segment) × (covering T v base stop ≡ done (some s.base))
              × (lookup s.base (tags T v) ≡ some s)
              × (s.free ≡ true)
              × (s.base ≤ base)
              × (stop ≤ end s))
    unfolding covering free_segment_containing
    covering-cases base stop = elim (Option-cases (last_below (suc base) (tags T v))) [
      | inl n ↦ inl (rw (n, covering, free_segment_containing))
      | inr (ks, e) ↦ from_previous ks.0 ks.1 e
    ]
      where
        from_previous :
            (k : ℕ) (s : Segment)
            → last_below (suc base) (tags T v) ≡ some (k, s)
            → (covering T v base stop ≡ done none)
              ⊎ ((s : Segment) × (covering T v base stop ≡ done (some s.base))
                  × (lookup s.base (tags T v) ≡ some s)
                  × (s.free ≡ true)
                  × (s.base ≤ base)
                  × (stop ≤ end s))
        from_previous k s e =
            let (at_base, found, below) = tag-previous (suc base) k s e in
            elim (Bool-cases (s.free && ltb base (end s) && leb stop (end s))) [
              | inl p ↦ inr (
                s,
                covering-previous base stop k s e ∙ (rw p),
                found,
                ground arith,
                omega arith,
                ground arith,
              )
              | inr p ↦ inl (covering-previous base stop k s e ∙ (rw p))
            ]

  mask_down_ge : (n q : ℕ) → 0 < n → 0 < q → n ≤ mask_down (n + (q - 1)) q
  mask_down_ge n q p h = omega (arith, div-add-mod (n + (q - 1)) q, mod-lt (n + (q - 1)) h)

  pub fixed_size-done :
      (v : Vmem T) (base size n : ℕ)
      → 0 < v.quantum
      → fixed_size T v base size ≡ done n
      → (0 < n) × (size ≤ n) × (base + n ≤ u64_max)
  unfolding fixed_size round_size
  fixed_size-done v base size n q e = ground (arith, mask_down_ge size v.quantum)

  pub round_size-cases :
      (v : Vmem T) (size : ℕ)
      → (round_size T v size ≡ fail invalid) ⊎ ((n : ℕ) × (round_size T v size ≡ done n))
  unfolding round_size
  round_size-cases v size = elim (Bool-cases (size == 0)) [
    | inl z ↦ inl (rw (z, round_size))
    | inr z ↦ elim (Bool-cases (ltb (size + (v.quantum - 1)) u64_mod)) [
      | inl small ↦ inr (mask_down (size + (v.quantum - 1)) v.quantum, rw (z, round_size, small))
      | inr large ↦ inl (rw (z, round_size, large))
    ]
  ]

  pub fixed_size-cases :
      (v : Vmem T) (base size : ℕ)
      → (fixed_size T v base size ≡ fail invalid) ⊎ ((n : ℕ) × (fixed_size T v base size ≡ done n))
  unfolding fixed_size
  fixed_size-cases v base size = elim (round_size-cases v size) [
    | inl e ↦ inl (rw (e, fixed_size))
    | inr (n, e) ↦ elim (Bool-cases (ltb (base + n) u64_mod)) [
      | inl small ↦ elim (Bool-cases (base % v.quantum == 0)) [
        | inl aligned ↦ inr (n, rw (e, fixed_size) (ground arith))
        | inr off ↦ inl (rw (e, fixed_size) (ground arith))
      ]
      | inr large ↦ inl (rw (e, fixed_size) (ground arith))
    ]
  ]
