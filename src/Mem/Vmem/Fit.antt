-- ===== src/Mem/Vmem/Fit.antt =====
-- kernel/src/mem/vmem.rs: the searches for a free segment.
use roanix.Prelude.{
  ℕ, zero, suc, ◌+◌, ◌-◌, max, Bool, true, false, not, ◌&&◌, Option, none, some, List, [], ◌∷◌,
  get_or, ltb, leb, ◌==◌, if◌then◌else◌, checked_add, u64_max,
}
use roanix.Prelude.Outcomes.{done, panic, ◌>>=◌}
use roanix.Prelude.Bits.{is_power_of_two, mask_down}
use roanix.Mem.Index.{OrderedTree}
use roanix.Mem.Vmem.Arena.{Vmem, tag, freelist_count, Segment, end, Run, freelist_index}

pub data VmemFit : Type 0 where
  instant best : VmemFit

unfoldable pub guaranteed_freelist : ℕ → ℕ
guaranteed_freelist size = freelist_index size + (if is_power_of_two size then 0 else 1)

-- Where `size` bytes fit into the segment, aligned and within `min .. max`.
unfoldable pub placement : Segment → ℕ → ℕ → ℕ → ℕ → Option ℕ
placement s size align min max_end = elim (checked_add (max s.base min) (align - 1)) [
  | none ↦ none
  | some n ↦ elim (checked_add (mask_down n align) size) [
    | none ↦ none
    | some stop ↦ if leb stop (end s) && leb stop max_end then some (mask_down n align) else none
  ]
]

-- The index of the first set bit from `i` on: `trailing_zeros` of the bitmap from there.
unfoldable pub first_set : List Bool → ℕ → ℕ → Option ℕ
first_set [] from i = none
first_set (b ∷ bits) from i = if b && leb from i then some i else first_set bits from (i + 1)

-- `is_none_or(|(_, _, chosen_size)| tag.size < chosen_size)`
unfoldable pub improves : Segment → Option (ℕ × ℕ × ℕ) → Bool
improves s none = true
improves s (some (segment, base, size)) = ltb s.size size

abbrev pub is_instant : VmemFit → Bool
is_instant instant = true
is_instant best = false

module _ (T : OrderedTree Segment) where
  open T use {Tree, empty, find, remove, write}

  -- The walk of `instant_fit` along one list, from a link on.
  unfoldable pub first_fit : (Vmem T) → ℕ → List ℕ → Run (Option (ℕ × ℕ))
  first_fit v size [] = done none
  first_fit v size (b ∷ chain) = do
    s ← tag T v b
    elim (leb size s.size) [ true ↦ done (some (s.base, s.base)) | false ↦ first_fit v size chain ]

  unfoldable pub instant_fit : (Vmem T) → ℕ → Run (Option (ℕ × ℕ))
  instant_fit v size = elim (first_set v.freelist_map (guaranteed_freelist size) 0) [
    | some list ↦ elim (get_or v.freelists list []) [
      | [] ↦ panic
      | b ∷ chain ↦ do s ← tag T v b; done (some (s.base, s.base))
    ]
    | none ↦ first_fit v size (get_or v.freelists (freelist_index size) [])
  ]

  -- The walk of `scan_fit` along one list: the segment, the base and the segment's size.
  unfoldable pub scan_list :
      (Vmem T) → ℕ → ℕ → ℕ → ℕ → Bool → List ℕ → Option (ℕ × ℕ × ℕ) → Run (Option (ℕ × ℕ × ℕ))
  scan_list v size align min max_end prefer_best [] chosen = done chosen
  scan_list v size align min max_end prefer_best (b ∷ chain) chosen = do
    s ← tag T v b
    elim (placement s size align min max_end) [
      | none ↦ scan_list v size align min max_end prefer_best chain chosen
      | some base ↦
          if prefer_best
          then scan_list v size align min max_end prefer_best chain
              (if improves s chosen then some (s.base, base, s.size) else chosen)
          else done (some (s.base, base, s.size))
    ]

  -- The loop of `scan_fit` over the `n` lists from `list` on.
  unfoldable pub scan_from : (Vmem T) → ℕ → ℕ → ℕ → ℕ → Bool → ℕ → ℕ → Run (Option (ℕ × ℕ))
  scan_from v size align min max_end prefer_best zero list = done none
  scan_from v size align min max_end prefer_best (suc n) list = do
    chosen ← scan_list v size align min max_end prefer_best (get_or v.freelists list []) none
    elim chosen [
      | some (segment, base, _) ↦ done (some (segment, base))
      | none ↦ scan_from v size align min max_end prefer_best n (list + 1)
    ]

  unfoldable pub scan_fit : (Vmem T) → ℕ → ℕ → ℕ → ℕ → Bool → Run (Option (ℕ × ℕ))
  scan_fit v size align min max_end prefer_best =
      scan_from v size align min max_end prefer_best (freelist_count - freelist_index size)
        (freelist_index size)

  -- The choice of `xalloc` between the two searches.
  unfoldable pub find_fit : (Vmem T) → ℕ → ℕ → ℕ → ℕ → VmemFit → Run (Option (ℕ × ℕ))
  find_fit v size align min max_end fit =
      if min == 0 && max_end == u64_max && align == v.quantum && is_instant fit
      then instant_fit v size
      else scan_fit v size align min max_end (not (is_instant fit))
