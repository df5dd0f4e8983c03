-- ===== src/Mem/Vmem/Arena.antt =====
-- kernel/src/mem/vmem.rs: the arena, its tags and size classes.
use roanix.Prelude.{
  ℕ, suc, ◌+◌, ◌-◌, ◌%◌, max, Bool, true, false, ◌&&◌, Option, none, some, List, [], ◌∷◌, is_empty,
  get_or, set, replicate, ltb, leb, ◌==◌, if◌then◌else◌, checked_add,
}
use roanix.Prelude.Outcomes.{Outcome, done, fail, panic, ◌>>=◌}
use roanix.Prelude.Bits.{leading_zeros, is_power_of_two, mask_down}
use roanix.Mem.Index.{OrderedTree, previous}

abbrev pub freelist_count : ℕ
freelist_count = 64

pub data VmemError : Type 0 where
  no_space no_memory invalid : VmemError

pub record Segment : Type 0 where
  pub base : ℕ
  pub size : ℕ
  pub span : ℕ
  pub free : Bool

abbrev pub end : Segment → ℕ
end s = s.base + s.size

abbrev pub Run : Type 0 → Type 0
Run A = Outcome VmemError A

unfoldable pub freelist_index : ℕ → ℕ
freelist_index size = 63 - leading_zeros (max size 1)

-- `Option::ok_or` on a computed option
abbrev pub or_fail {ℓ} : {A : Type ℓ} → Option A → VmemError → Outcome VmemError A
or_fail none e = fail e
or_fail (some a) e = done a

-- Takes a tag out of its list.
unfoldable pub unlink : ℕ → List ℕ → List ℕ
unlink base [] = []
unlink base (b ∷ chain) = if b == base then chain else b ∷ unlink base chain

module _ (T : OrderedTree Segment) where
  open T use {Tree, empty, find, remove, write}

  -- A size class's intrusive list is the list of its tags' bases from the head on, and the bitmap
  -- `freelist_map` is the list of its bits from the lowest on.
  pub record Vmem : Type 0 where
    pub segments : Tree
    pub freelists : List (List ℕ)
    pub freelist_map : List Bool
    pub quantum : ℕ
    pub total : ℕ
    pub used : ℕ

  unfoldable pub new : ℕ → Run Vmem
  new quantum =
      if is_power_of_two quantum
      then done (record {
        segments = empty;
        freelists = replicate freelist_count [];
        freelist_map = replicate freelist_count false;
        quantum = quantum;
        total = 0;
        used = 0;
      })
      else panic

  abbrev pub available : Vmem → ℕ
  available v = v.total - v.used

  unfoldable pub tag : Vmem → ℕ → Run Segment
  tag v base = elim (find base v.segments) [ some s ↦ done s | none ↦ panic ]

  abbrev pub set_tag : Vmem → ℕ → Segment → Vmem
  set_tag v key s = record v { segments = write key s v.segments }

  unfoldable pub push_free : Vmem → ℕ → Run Vmem
  push_free v base = do
    s ← tag v base
    let list = freelist_index s.size
    let chain = base ∷ get_or v.freelists list []
    done (record v {
      freelists = set v.freelists list chain;
      freelist_map = set v.freelist_map list true;
    })

  unfoldable pub pop_free : Vmem → ℕ → Run Vmem
  pop_free v base = do
    s ← tag v base
    let list = freelist_index s.size
    let chain = unlink base (get_or v.freelists list [])
    done (record v {
      freelists = set v.freelists list chain;
      freelist_map = if is_empty chain then set v.freelist_map list false else v.freelist_map;
    })

  -- `round_size`
  unfoldable pub round_size : Vmem → ℕ → Run ℕ
  round_size v size = if size == 0 then fail invalid else elim (checked_add size (v.quantum - 1)) [
    | none ↦ fail invalid
    | some n ↦ done (mask_down n v.quantum)
  ]

  unfoldable pub fixed_size : Vmem → ℕ → ℕ → Run ℕ
  fixed_size v base size = do
    size ← round_size v size
    elim (checked_add base size) [
      | none ↦ fail invalid
      | some _ ↦ if base % v.quantum == 0 then done size else fail invalid
    ]

  -- The entry of the free segment that holds the address; `range(..=address)` ends at it.
  unfoldable pub free_segment_containing : Vmem → ℕ → Option ℕ
  free_segment_containing v address = elim (previous T (suc address) v.segments) [
    | none ↦ none
    | some (key, s) ↦ if s.free && ltb address (end s) then some key else none
  ]

  -- The free segment that covers the whole range.
  unfoldable pub covering : Vmem → ℕ → ℕ → Run (Option ℕ)
  covering v base stop = elim (free_segment_containing v base) [
    | none ↦ done none
    | some key ↦ do s ← tag v key; done (if leb stop (end s) then some key else none)
  ]
