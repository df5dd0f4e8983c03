-- ===== src/Fs/FilePath/Parse.antt =====
-- What `parse` of kernel/src/fs/path.rs accepts, and that its loop ends.
use mathlib.Core.Option
use roanix.Prelude.{
  ℕ, zero, suc, ◌+◌, ◌≤◌, ◌<◌, ◌≡◌, refl, Bool, false, ◌||◌, inl, inr, Option, none, some, List, [],
  ◌∷◌, length, contains, is_empty, ltb, ◌==◌, if◌then◌else◌, arith, ok, err,
}
use roanix.Fs.Error.{name_too_long, invalid_argument}
use roanix.Fs.FilePath.{
  Bytes, Components, new, slash, next, validate_names, parse, parsed, max_name_len, max_path_len,
}
use roanix.Fs.FilePath.Names.{fields, non_empty, push_head, names, next-cases, remaining}

-- All components, by running the iterator; `none` means that the fuel ran out.
pub collect : ℕ → Components → Option (List Bytes)
unfolding next
collect zero c = none
collect (suc fuel) c = elim ((next c).0) [
  | none ↦ some []
  | some word ↦ Option.map (λ words. word ∷ words) (collect fuel (next c).1)
]

collect-names :
    (fuel : ℕ) (c : Components)
    → c.position ≤ length c.path
    → length (remaining c) < fuel
    → collect fuel c ≡ some (names (remaining c))
unfolding collect
collect-names zero c h lt = elim lt [ ]
collect-names (suc fuel) c h lt = elim (next-cases c h) [
  | inl (e, n) ↦ rw (e, collect, n)
  | inr (word, a) ↦
      rw (
        a.result,
        collect,
        collect-names fuel (next c).1 a.inside (omega (arith, a.shorter)),
        a.left,
      )
]

-- Every path's iterator ends within `length path + 1` calls, and has then returned, in order,
-- exactly the fields between separators that are not empty.
pub collect_lem : (path : Bytes) → collect (length path + 1) (new path) ≡ some (names path)
collect_lem path = collect-names (length path + 1) (new path) (omega arith) (omega arith)

-- The first component that is too long stops the loop.
unfoldable pub any_too_long : List Bytes → Bool
any_too_long [] = false
any_too_long (w ∷ ws) = ltb max_name_len (length w) || any_too_long ws

-- No byte of the components is a separator or, for a path without it, zero.
abbrev pub AreGood : List Bytes → Type 0
AreGood [] = Unit {0}
AreGood (w ∷ ws) = ((is_empty w || contains 0 w || contains slash w) ≡ false) × AreGood ws

validate_names-good :
    (fuel : ℕ) (c : Components)
    → c.position ≤ length c.path
    → length (remaining c) < fuel
    → AreGood (names (remaining c))
    → validate_names fuel c
      ≡ some (if any_too_long (names (remaining c)) then err name_too_long else ok tt)
unfolding validate_names any_too_long
validate_names-good zero c h lt g = elim lt [ ]
validate_names-good (suc fuel) c h lt g = elim (next-cases c h) [
  | inl (e, n) ↦ rw (e, validate_names, n)
  | inr (word, a) ↦
      let g' = rw a.left at g in
      rw (a.result, validate_names, a.left)
        (ground
          (arith, g', validate_names-good fuel (next c).1 a.inside (omega (arith, a.shorter)) g'.1))
]

abbrev AreClean : List Bytes → Type 0
AreClean [] = Unit {0}
AreClean (w ∷ ws) = ((contains 0 w || contains slash w) ≡ false) × AreClean ws

push_head-AreClean :
    (b : ℕ) (ws : List Bytes)
    → ((b == 0) || (b == slash)) ≡ false
    → AreClean ws
    → AreClean (push_head b ws)
push_head-AreClean b [] e g = ground arith
push_head-AreClean b (w ∷ ws) e g = ground arith

fields-AreClean : (path : Bytes) → contains 0 path ≡ false → AreClean (fields path)
unfolding fields
fields-AreClean [] e = (refl, tt)
fields-AreClean (b ∷ rest) e =
    ground (arith, fields-AreClean rest, push_head-AreClean b (fields rest))

non_empty-AreGood : (ws : List Bytes) → AreClean ws → AreGood (non_empty ws)
unfolding non_empty
non_empty-AreGood [] g = tt
non_empty-AreGood ([] ∷ ws) g = non_empty-AreGood ws g.1
non_empty-AreGood ((b ∷ w) ∷ ws) g = (ground arith, non_empty-AreGood ws g.1)

pub names-AreGood : (path : Bytes) → contains 0 path ≡ false → AreGood (names path)
unfolding names
names-AreGood path e = non_empty-AreGood (fields path) (fields-AreClean path e)

-- `parse` always returns. It refuses, in this order, a path longer than the limit, an empty path
-- or one that holds a zero byte, and a path with a component longer than the limit; any other
-- path it accepts, with its two flags and an iterator at its start.
pub parse_lem :
    (path : Bytes)
    → parse path
      ≡ some (
          if ltb max_path_len (length path)
          then err name_too_long
          else if is_empty path || contains 0 path
          then err invalid_argument
          else if any_too_long (names path)
          then err name_too_long
          else ok (parsed path))
unfolding parse
parse_lem path =
    ground (arith, names-AreGood path, validate_names-good (suc (length path)) (new path))
