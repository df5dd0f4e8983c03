-- ===== src/Driver/Property.antt =====
-- kernel/src/driver/core/property.rs: typed properties of devices, their builder and lookups.
pub mod Edits
pub mod Sorted
pub mod Search
pub mod Names
mod Tests
use roanix.Prelude.{
  ℕ, zero, suc, ◌+◌, ◌-◌, ◌/◌, Bool, true, false, not, ◌&&◌, ◌||◌, Option, none, some, List, [],
  ◌∷◌, ◌++◌, length, get_elem?, is_empty, ltb, leb, ◌==◌, if◌then◌else◌, same_bytes, Result, ok,
  err, ◌>>=◌, ◌>>◌, guard,
}

-- Strings are their bytes.
abbrev pub Str : Type 0
Str = List ℕ

pub data Error : Type 0 where
  invalid_argument no_space : Error

pub data PropValue : Type 0 where
  empty : PropValue
  u32 u64 : ℕ → PropValue
  str : Str → PropValue
  str_list : List Str → PropValue
  u32_list u64_list bytes : List ℕ → PropValue

unfoldable pub kind : PropValue → ℕ
kind empty = 0
kind (u32 n) = 1
kind (u64 n) = 2
kind (str s) = 3
kind (str_list ss) = 4
kind (u32_list ns) = 5
kind (u64_list ns) = 6
kind (bytes bs) = 7

unfoldable pub as_u64 : PropValue → Option ℕ
as_u64 (u32 n) = some n
as_u64 (u64 n) = some n
as_u64 (u32_list ns) = get_elem? ns 0
as_u64 (u64_list ns) = get_elem? ns 0
as_u64 _ = none

unfoldable pub string_at : PropValue → ℕ → Option Str
string_at (str s) index = if index == 0 then some s else none
string_at (str_list ss) index = get_elem? ss index
string_at _ index = none

unfoldable pub len : PropValue → ℕ
len empty = 0
len (u32 n) = 1
len (u64 n) = 1
len (str s) = 1
len (str_list ss) = length ss
len (u32_list ns) = length ns
len (u64_list ns) = length ns
len (bytes bs) = length bs

unfoldable pub any_string : List Str → Str → Bool
any_string [] text = false
any_string (s ∷ ss) text = same_bytes s text || any_string ss text

unfoldable pub contains_string : PropValue → Str → Bool
contains_string (str s) text = same_bytes s text
contains_string (str_list ss) text = any_string ss text
contains_string _ text = false

unfoldable pub cell_at : PropValue → ℕ → Option ℕ
cell_at (u32 n) index = if index == 0 then some n else none
cell_at (u64 n) index = if index == 0 then some n else none
cell_at (u32_list ns) index = get_elem? ns index
cell_at (u64_list ns) index = get_elem? ns index
cell_at _ index = none

-- `PropValue::bytes`
unfoldable pub raw_bytes : PropValue → Option (List ℕ)
raw_bytes (bytes bs) = some bs
raw_bytes _ = none

abbrev pub max_properties : ℕ
max_properties = 256

abbrev pub max_name : ℕ
max_name = 128

-- The entries of a `PropertyBuilder`, and those of `Properties`.
abbrev pub Entries : Type 0
Entries = List (Str × PropValue)

-- The value of the first entry with a name, as `iter_mut().find` finds it.
unfoldable pub lookup : Str → Entries → Option PropValue
lookup name [] = none
lookup name ((key, value) ∷ es) = if same_bytes key name then some value else lookup name es

-- The write to the entry that `iter_mut().find` returns.
unfoldable pub replace : Str → PropValue → Entries → Entries
replace name value [] = []
replace name value ((key, old) ∷ es) =
    if same_bytes key name then (key, value) ∷ es else (key, old) ∷ replace name value es

unfoldable pub set : Str → PropValue → Entries → Result Error Entries
set name value entries =
    if is_empty name || ltb max_name (length name)
    then err invalid_argument
    else elim (lookup name entries) [
      | some old ↦ ok (replace name value entries)
      | none ↦
          if leb max_properties (length entries)
          then err no_space
          else ok (entries ++ ((name, value) ∷ []))
    ]

-- `retain`
unfoldable pub remove : Str → Entries → Entries
remove name [] = []
remove name ((key, value) ∷ es) =
    if same_bytes key name then remove name es else (key, value) ∷ remove name es

-- The order of strings: that of their bytes.
unfoldable pub str_le : Str → Str → Bool
str_le [] ys = true
str_le (x ∷ xs) [] = false
str_le (x ∷ xs) (y ∷ ys) = if ltb x y then true else if x == y then str_le xs ys else false

unfoldable pub insert_by_name : Str × PropValue → Entries → Entries
insert_by_name e [] = e ∷ []
insert_by_name e (f ∷ es) = if str_le e.0 f.0 then e ∷ f ∷ es else f ∷ insert_by_name e es

-- `sort_unstable_by` on entries whose names are all different.
unfoldable pub build : Entries → Entries
build [] = []
build (e ∷ es) = insert_by_name e (build es)

-- Whether the name at an index is no greater than `name`.
unfoldable pub at_most : Str → Option (Str × PropValue) → Bool
unfolding str_le
at_most name none = false
at_most name (some (key, value)) = str_le key name

-- The halving of `binary_search_by`: where the last name is that is no greater, among `size` entries
-- from `base` on. Fuel for each entry is enough, since the size shrinks each time.
unfoldable pub halve : ℕ → Entries → Str → ℕ → ℕ → ℕ
unfolding at_most
halve zero entries name base size = base
halve (suc fuel) entries name base size =
    let half = size / 2 in
    let upper = halve fuel entries name (base + half) (size - half) in
    let lower = halve fuel entries name base (size - half) in
    if leb size 1
    then base
    else if at_most name (get_elem? entries (base + half))
    then upper
    else lower

-- The value of an entry that was found, if it has the name.
unfoldable pub named : Str → Option (Str × PropValue) → Option PropValue
named name none = none
named name (some (key, value)) = if same_bytes key name then some value else none

-- `Properties::get`
unfoldable pub get : Entries → Str → Option PropValue
unfolding halve named
get entries name =
    named name (get_elem? entries (halve (length entries) entries name 0 (length entries)))

unfoldable pub contains : Entries → Str → Bool
contains entries name = elim (get entries name) [ none ↦ false | some value ↦ true ]

unfoldable pub entry : Entries → ℕ → Option (Str × PropValue)
entry entries index = get_elem? entries index

unfoldable pub has_string : Entries → Str → Str → Bool
has_string entries name text = elim (get entries name) [
  | none ↦ false
  | some value ↦ contains_string value text
]
