-- ===== src/Driver/Resource.antt =====
-- kernel/src/driver/core/resource.rs: the ranges and lines that a device occupies.
pub mod Ranges
mod Tests
use roanix.Prelude.{
  ℕ, zero, suc, ◌+◌, ◌-◌, ◌*◌, Bool, true, false, not, ◌&&◌, ◌||◌, Option, none, some, List, [],
  ◌∷◌, ◌++◌, length, is_empty, ltb, leb, ◌==◌, if◌then◌else◌, checked_add, same_bytes, Result, ok,
  err, ◌>>=◌, ◌>>◌, guard,
}

-- The constants of `kind`, of which the code compares the first and the last.
abbrev pub kind_mem : ℕ
kind_mem = 1

abbrev pub kind_io : ℕ
kind_io = 2

abbrev pub kind_irq : ℕ
kind_irq = 3

abbrev pub kind_dma : ℕ
kind_dma = 4

abbrev pub kind_bus : ℕ
kind_bus = 5

abbrev pub max_resources : ℕ
max_resources = 64

pub data Error : Type 0 where
  invalid_argument no_space : Error

-- A label is its bytes.
pub record Resource : Type 0 where
  pub kind : ℕ
  pub flags : ℕ
  pub start : ℕ
  pub size : ℕ
  pub bus_start : ℕ
  pub name : Option (List ℕ)

abbrev pub is_none {ℓ} : {A : Type ℓ} → Option A → Bool
is_none none = true
is_none (some a) = false

unfoldable pub new : ℕ → ℕ → ℕ → ℕ → Result Error Resource
new kind flags start size = do
  guard (leb kind_mem kind && leb kind kind_bus) invalid_argument
  guard (not (size == 0 || is_none (checked_add start (size - 1)))) invalid_argument
  ok (record {
    kind = kind;
    flags = flags;
    start = start;
    size = size;
    bus_start = start;
    name = none;
  })

unfoldable pub validate : Resource → Result Error (Unit {0})
validate r = do
  guard (leb kind_mem r.kind && leb r.kind kind_bus) invalid_argument
  guard (not (r.size == 0 || is_none (checked_add r.start (r.size - 1)))) invalid_argument

-- `end`; `none` is an overflow of `start + size`, or of the subtraction after it.
unfoldable pub last : Resource → Option ℕ
last r = elim (checked_add r.start r.size) [
  | none ↦ none
  | some stop ↦ if stop == 0 then none else some (stop - 1)
]

unfoldable pub covers : Resource → ℕ → ℕ → Bool
covers r offset len =
    not (len == 0) && (elim (checked_add offset len) [ none ↦ false | some stop ↦ leb stop r.size ])

unfoldable pub with_name : Resource → List ℕ → Resource
with_name r name = if is_empty name then r else record r { name = some name }

unfoldable pub with_bus_start : Resource → ℕ → Resource
with_bus_start r bus_start = record r { bus_start = bus_start }

-- `ResourceBuilder::push` on the builder's entries: the index and the entries.
unfoldable pub push : List Resource → Resource → Result Error (ℕ × List Resource)
push entries r =
    if leb max_resources (length entries)
    then err no_space
    else ok (length entries, entries ++ (r ∷ []))

-- The resource at an index among those of a kind.
unfoldable pub find : List Resource → ℕ → ℕ → Option Resource
find [] kind index = none
find (r ∷ rs) kind index =
    if r.kind == kind
    then elim index [ zero ↦ some r | suc i ↦ find rs kind i ]
    else find rs kind index

unfoldable pub is_named : Resource → List ℕ → Bool
is_named r name = elim r.name [ none ↦ false | some label ↦ same_bytes label name ]

unfoldable pub find_named : List Resource → ℕ → List ℕ → Option Resource
find_named [] kind name = none
find_named (r ∷ rs) kind name =
    if r.kind == kind && is_named r name then some r else find_named rs kind name
