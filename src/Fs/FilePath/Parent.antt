-- ===== src/Fs/FilePath/Parent.antt =====
-- `split_parent` of kernel/src/fs/path.rs against the components of the path.
use roanix.Prelude.{
  ℕ, zero, suc, ◌≤◌, ◌<◌, ◌≡◌, refl, sym, ap, ◌∙◌, true, false, ◌&&◌, ◌⊎◌, inl, inr, none, some,
  List, [], ◌∷◌, ◌++◌, append-nil, length, take, drop, get_or, contains, is_empty, ltb, ◌==◌,
  Bool-cases, Option-cases, arith, ◌≢◌, ok,
}
use native.Mathlib.Numerals.{add-one}
use roanix.Fs.FilePath.{
  Bytes, slash, dot, validate_leaf_name, is_dots, trim, rposition, split_at, split_parent,
  ParentPath, ends_with_slash, max_name_len,
}
use roanix.Fs.FilePath.Names.{fields, non_empty, push_head, names, names-nil, names-root}

fields-cons : (xs : Bytes) → (f : Bytes) × (fs : List Bytes) × (fields xs ≡ f ∷ fs)
unfolding fields
fields-cons [] = ([], [], refl)
fields-cons (x ∷ xs) =
    let (f, fs, e) = fields-cons xs in
    elim (Bool-cases (x == slash)) [
      | inl p ↦ ([], fields xs, rw (p))
      | inr p ↦ (x ∷ f, fs, rw (p, e))
    ]

push_head-append :
    (x : ℕ) (xs : Bytes) (gs : List Bytes)
    → push_head x (fields xs ++ gs) ≡ push_head x (fields xs) ++ gs
push_head-append x xs gs = let (f, fs, e) = fields-cons xs in rw e

fields-slash : (xs ys : Bytes) → fields (xs ++ (slash ∷ ys)) ≡ fields xs ++ fields ys
unfolding fields
fields-slash [] ys = refl
fields-slash (x ∷ xs) ys = elim (Bool-cases (x == slash)) [
  | inl e ↦ rw e (rw (fields-slash xs ys))
  | inr e ↦ rw e (rw (fields-slash xs ys) (push_head-append x xs (fields ys)))
]

non_empty-append : (fs gs : List Bytes) → non_empty (fs ++ gs) ≡ non_empty fs ++ non_empty gs
unfolding non_empty
non_empty-append [] gs = refl
non_empty-append ([] ∷ fs) gs = non_empty-append fs gs
non_empty-append ((b ∷ f) ∷ fs) gs = ap (λ t. (b ∷ f) ∷ t) (non_empty-append fs gs)

-- A separator joins the components before it to those after it.
pub names-slash : (xs ys : Bytes) → names (xs ++ (slash ∷ ys)) ≡ names xs ++ names ys
unfolding names
names-slash xs ys = rw (fields-slash xs ys) (non_empty-append (fields xs) (fields ys))

fields-single : (w : Bytes) → contains slash w ≡ false → fields w ≡ w ∷ []
unfolding fields
fields-single [] e = refl
fields-single (b ∷ w) e = ground (arith, fields-single w)

names-single : (w : Bytes) → contains slash w ≡ false → is_empty w ≡ false → names w ≡ w ∷ []
unfolding names non_empty
names-single [] e n = cc
names-single (b ∷ w) e n = rw (fields-single (b ∷ w) e)

take-suc :
    (n : ℕ) (xs : Bytes) → n < length xs → take (suc n) xs ≡ take n xs ++ (get_or xs n 0 ∷ [])
take-suc n [] h = elim h [ ]
take-suc zero (x ∷ xs) h = refl
take-suc (suc n) (x ∷ xs) h = ap (λ t. x ∷ t) (take-suc n xs (omega arith))

take-length : (xs : Bytes) → take (length xs) xs ≡ xs
take-length [] = refl
take-length (x ∷ xs) = ap (λ t. x ∷ t) (take-length xs)

-- Trailing separators name nothing.
trim-names :
    (path : Bytes) (n : ℕ) → n ≤ length path → names (take (trim path n) path) ≡ names (take n path)
unfolding trim
trim-names path zero h = refl
trim-names path (suc n) h = elim (Bool-cases (ltb 1 (suc n) && get_or path n 0 == slash)) [
  | inl e ↦ rw e (
      trim-names path n (omega arith)
      ∙ sym (ap names (drop_slash e) ∙ names-slash (take n path) [] ∙ rw (names-nil, append-nil)))
  | inr e ↦ rw e
]
  where
    drop_slash :
        (ltb 1 (suc n) && get_or path n 0 == slash) ≡ true
        → take (suc n) path ≡ take n path ++ (slash ∷ [])
    drop_slash e = take-suc n path h ∙ ap (λ b. take n path ++ (b ∷ [])) (ground arith)

rposition-none : (xs : Bytes) → rposition xs ≡ none → contains slash xs ≡ false
unfolding rposition
rposition-none [] e = refl
rposition-none (x ∷ xs) e = ground (arith, rposition-none xs)

rposition-some :
    (xs : Bytes) (i : ℕ)
    → rposition xs ≡ some i
    → (xs ≡ take i xs ++ (slash ∷ drop (suc i) xs)) × (contains slash (drop (suc i) xs) ≡ false)
unfolding rposition
rposition-some [] i e = cc
rposition-some (x ∷ xs) i e = elim (Option-cases (rposition xs)) [
  | inl n ↦ ground (arith, rposition-none xs)
  | inr (j, p) ↦ ground (arith, rposition-some xs j p)
]

-- What `split_parent` returns, by the position of the last separator of the trimmed path.
trimmed : Bytes → Bytes
unfolding trim
trimmed path = take (trim path (length path)) path

names-trimmed : (path : Bytes) → names (trimmed path) ≡ names path
unfolding trimmed
names-trimmed path = trim-names path (length path) (omega arith) ∙ ap names (take-length path)

-- The split of a path names the same: its parent's components, then its last one.
abbrev Splits : Bytes → Bytes × Bytes → Type 0
Splits path halves =
    (contains slash halves.1 ≡ false)
    × (is_empty halves.1 ≡ false
        → ((halves.0 ≡ dot ∷ []) × (names path ≡ halves.1 ∷ []))
          ⊎ (names path ≡ names halves.0 ++ (halves.1 ∷ [])))

names-single_after :
    (path xs ys : Bytes)
    → path ≡ xs ++ (slash ∷ ys)
    → contains slash ys ≡ false
    → is_empty ys ≡ false
    → names path ≡ names xs ++ (ys ∷ [])
names-single_after path xs ys e c n =
    ap names e ∙ names-slash xs ys ∙ ap (λ t. names xs ++ t) (names-single ys c n)

split_at-some :
    (path : Bytes) (i : ℕ) → rposition path ≡ some i → Splits path (split_at path (some i))
unfolding split_at names
split_at-some path zero e =
    let (p, c) = rposition-some path 0 e in
    (
      c,
      λ n. inr (
          names-single_after path [] (drop 1 path) p c n
          ∙ sym (ap (λ t. names t ++ (drop 1 path ∷ [])) (ap (take 1) p) ∙ rw names-root)),
    )
split_at-some path (suc i) e =
    let (p, c) = rposition-some path (suc i) e in
    rw add-one
      (c, λ n. inr (names-single_after path (take (suc i) path) (drop (suc (suc i)) path) p c n))

split_at-Splits : (path : Bytes) → Splits path (split_at path (rposition path))
unfolding split_at
split_at-Splits path = elim (Option-cases (rposition path)) [
  | inl e ↦
      rw (e, split_at)
        (rposition-none path e, λ n. inl (refl, names-single path (rposition-none path e) n))
  | inr (i, e) ↦ rw e (split_at-some path i e)
]

-- What a success of `split_parent` says of its result.
pub record IsParentOf (path : Bytes) (r : ParentPath) : Type 0 where
  pub slash_at_end : r.trailing_slash ≡ ends_with_slash path
  pub short : length r.name ≤ max_name_len
  pub present : is_empty r.name ≡ false
  pub single : contains slash r.name ≡ false
  pub proper : (r.name ≢ dot ∷ []) × (r.name ≢ dot ∷ dot ∷ [])
  pub split :
      ((r.parent ≡ dot ∷ []) × (names path ≡ r.name ∷ []))
      ⊎ (names path ≡ names r.parent ++ (r.name ∷ []))

validate_leaf_name-ok :
    (name : Bytes)
    → validate_leaf_name name ≡ ok tt
    → (length name ≤ max_name_len)
      × (is_empty name ≡ false)
      × (contains slash name ≡ false)
      × (is_dots name ≡ false)
unfolding validate_leaf_name
validate_leaf_name-ok name e = ground arith

is_dots-ne : (name : Bytes) → is_dots name ≡ false → (name ≢ dot ∷ []) × (name ≢ dot ∷ dot ∷ [])
unfolding is_dots
is_dots-ne name e = (λ p. ground (arith, ap is_dots p), λ p. ground (arith, ap is_dots p))

abbrev halves : Bytes → Bytes × Bytes
halves path = split_at (trimmed path) (rposition (trimmed path))

split_parent-ok :
    (path : Bytes) (r : ParentPath)
    → split_parent path ≡ ok r
    → (validate_leaf_name (halves path).1 ≡ ok tt)
      × (r ≡ record {
        parent = (halves path).0;
        name = (halves path).1;
        trailing_slash = ends_with_slash path;
      })
unfolding split_parent trimmed
split_parent-ok path r e = ground arith

-- When `split_parent` succeeds, the name it returns is a valid entry name (not empty, within the
-- limit, without a separator, neither `.` nor `..`), the flag tells a trailing separator, and the
-- path's components are those of the parent followed by the name, or the name alone and the
-- parent `.`.
pub split_parent-IsParentOf :
    (path : Bytes) (r : ParentPath) → split_parent path ≡ ok r → IsParentOf path r
split_parent-IsParentOf path r e =
    let (valid, eq) = split_parent-ok path r e in
    let (short, present, single, proper) = validate_leaf_name-ok (halves path).1 valid in
    rw eq (record {
      slash_at_end = refl;
      short = short;
      present = present;
      single = single;
      proper = is_dots-ne (halves path).1 proper;
      split = rw (← names-trimmed path) ((split_at-Splits (trimmed path)).1 present);
    })
