-- ===== src/Fs/FilePath.antt =====
-- kernel/src/fs/path.rs: byte paths, their components, and the split at the last component.
pub mod Names
pub mod Parse
pub mod Parent
mod Tests
use roanix.Prelude.{
  ℕ, zero, suc, ◌+◌, ◌-◌, ◌≤◌, ◌<◌, ◌≡◌, refl, Bool, true, false, not, ◌&&◌, ◌||◌, Option, none,
  some, List, [], ◌∷◌, ◌++◌, length, get_or, take, drop, is_empty, contains, ltb, ◌==◌,
  if◌then◌else◌, Result, ok, err, ◌>>=◌, ◌>>◌, guard, arith,
}
use mathlib.Core.Option
use roanix.Fs.Error.{Error, name_too_long, invalid_argument}

abbrev pub max_path_len : ℕ
max_path_len = 4096

abbrev pub max_name_len : ℕ
max_name_len = 255

abbrev pub Bytes : Type 0
Bytes = List ℕ

-- The separator `b'/'`.
abbrev pub slash : ℕ
slash = 47

-- The byte `b'.'`.
abbrev pub dot : ℕ
dot = 46

-- Iterator over the components that are not empty.
pub record Components : Type 0 where
  pub path : Bytes
  pub position : ℕ

abbrev pub new : Bytes → Components
new path = record { path = path; position = 0 }

-- The first loop of `next`, over the bytes from `position` on: past the separators.
pub skip : Bytes → ℕ → ℕ
skip [] position = position
skip (b ∷ rest) position = if b == slash then skip rest (position + 1) else position

-- The second loop of `next`: to the next separator.
pub scan : Bytes → ℕ → ℕ
scan [] position = position
scan (b ∷ rest) position = if b == slash then position else scan rest (position + 1)

-- `Iterator::next`: the component, if there is one, and the iterator after it.
pub next : Components → Option Bytes × Components
unfolding skip scan
next c =
    let start = skip (drop c.position c.path) c.position in
    if start == length c.path
    then (none, record c { position = start })
    else (let end = scan (drop start c.path) start in
        (some (take (end - start) (drop start c.path)), record c { position = end }))

pub peek : Components → Option Bytes
unfolding next
peek c = (next c).0

pub validate_name : Bytes → Result Error (Unit {0})
validate_name name = do
  guard (not (ltb max_name_len (length name))) name_too_long
  guard (not (is_empty name || contains 0 name || contains slash name)) invalid_argument

pub validate_path : Bytes → Result Error (Unit {0})
validate_path path = do
  guard (not (ltb max_path_len (length path))) name_too_long
  guard (not (is_empty path || contains 0 path)) invalid_argument

-- A directory entry is neither `.` nor `..`.
is_dots : Bytes → Bool
is_dots (a ∷ []) = a == dot
is_dots (a ∷ b ∷ []) = a == dot && b == dot
is_dots _ = false

pub validate_leaf_name : Bytes → Result Error (Unit {0})
unfolding validate_name is_dots
validate_leaf_name name = do validate_name name; guard (not (is_dots name)) invalid_argument

pub validate_symlink_target : Bytes → Result Error (Unit {0})
validate_symlink_target target = do
  guard (not (is_empty target || contains 0 target)) invalid_argument
  guard (not (ltb max_path_len (length target))) name_too_long

pub record ParsedPath : Type 0 where
  pub absolute : Bool
  pub trailing_slash : Bool
  pub components : Components

-- The loop of `parse` over the components; `none` means that the fuel ran out.
pub validate_names : ℕ → Components → Option (Result Error (Unit {0}))
unfolding next validate_name
validate_names zero c = none
validate_names (suc fuel) c = elim ((next c).0) [
  | none ↦ some (ok tt)
  | some name ↦ elim (validate_name name) [
    | ok _ ↦ validate_names fuel (next c).1
    | err e ↦ some (err e)
  ]
]

-- `path.first() == Some(&b'/')`
abbrev pub starts_with_slash : Bytes → Bool
starts_with_slash [] = false
starts_with_slash (b ∷ rest) = b == slash

-- `path.last() == Some(&b'/')`
abbrev pub ends_with_slash : Bytes → Bool
ends_with_slash [] = false
ends_with_slash (b ∷ []) = b == slash
ends_with_slash (b ∷ c ∷ rest) = ends_with_slash (c ∷ rest)

abbrev pub parsed : Bytes → ParsedPath
parsed path = record {
  absolute = starts_with_slash path;
  trailing_slash = ends_with_slash path;
  components = new path;
}

pub parse : Bytes → Option (Result Error ParsedPath)
unfolding validate_path validate_names
parse path = elim (validate_path path) [
  | err e ↦ some (err e)
  | ok _ ↦
      Option.map (λ checked. checked >>= λ _. ok (parsed path))
        (validate_names (suc (length path)) (new path))
]

pub record ParentPath : Type 0 where
  pub parent : Bytes
  pub name : Bytes
  pub trailing_slash : Bool

-- The loop of `split_parent` that lowers `end` past the trailing separators.
pub trim : Bytes → ℕ → ℕ
trim path zero = zero
trim path (suc n) = if ltb 1 (suc n) && get_or path n 0 == slash then trim path n else suc n

-- `Iterator::rposition`: the last index that holds a separator.
pub rposition : Bytes → Option ℕ
rposition [] = none
rposition (b ∷ rest) = elim (rposition rest) [
  | some i ↦ some (suc i)
  | none ↦ if b == slash then some 0 else none
]

-- The `match split` of `split_parent`.
pub split_at : Bytes → Option ℕ → Bytes × Bytes
split_at path none = (dot ∷ [], path)
split_at path (some zero) = (take 1 path, drop 1 path)
split_at path (some (suc i)) = (take (suc i) path, drop (suc i + 1) path)

pub split_parent : Bytes → Result Error ParentPath
split_parent path = do
  validate_path path
  let trimmed = take (trim path (length path)) path
  let halves = split_at trimmed (rposition trimmed)
  validate_leaf_name halves.1
  ok (record { parent = halves.0; name = halves.1; trailing_slash = ends_with_slash path })
