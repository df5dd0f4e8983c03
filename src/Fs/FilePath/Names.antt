-- ===== src/Fs/FilePath/Names.antt =====
-- The components of kernel/src/fs/path.rs against the fields between separators.
use roanix.Prelude.{
  ℕ, suc, ◌-◌, drop-add, length-drop, ◌+◌, ◌≤◌, ◌<◌, ◌≡◌, refl, ap, false, ◌⊎◌, inl, inr, Option,
  none, some, List, [], ◌∷◌, length, take, drop, ◌==◌, if◌then◌else◌, Bool-cases, arith,
}
use roanix.Fs.FilePath.{Bytes, Components, slash, skip, scan, next}

-- Puts a byte in front of the first field.
abbrev pub push_head : ℕ → List Bytes → List Bytes
push_head b [] = (b ∷ []) ∷ []
push_head b (f ∷ fs) = (b ∷ f) ∷ fs

-- The fields between separators, empty ones included.
unfoldable pub fields : Bytes → List Bytes
fields [] = [] ∷ []
fields (b ∷ rest) = if b == slash then [] ∷ fields rest else push_head b (fields rest)

unfoldable pub non_empty : List Bytes → List Bytes
non_empty [] = []
non_empty ([] ∷ fs) = non_empty fs
non_empty ((b ∷ f) ∷ fs) = (b ∷ f) ∷ non_empty fs

-- What the path names, in traversal order.
unfoldable pub names : Bytes → List Bytes
unfolding fields non_empty
names path = non_empty (fields path)

-- The length of a run of separators, and of a run without one.
lead : Bytes → ℕ
lead [] = 0
lead (b ∷ rest) = if b == slash then suc (lead rest) else 0

word_len : Bytes → ℕ
word_len [] = 0
word_len (b ∷ rest) = if b == slash then 0 else suc (word_len rest)

skip-lead : (xs : Bytes) (p : ℕ) → skip xs p ≡ p + lead xs
unfolding skip lead
skip-lead [] p = omega arith
skip-lead (b ∷ rest) p = ground (arith, skip-lead rest (p + 1))

scan-word_len : (xs : Bytes) (p : ℕ) → scan xs p ≡ p + word_len xs
unfolding scan word_len
scan-word_len [] p = omega arith
scan-word_len (b ∷ rest) p = ground (arith, scan-word_len rest (p + 1))

names-lead : (xs : Bytes) → names xs ≡ names (drop (lead xs) xs)
unfolding names lead
names-lead [] = refl
names-lead (b ∷ rest) = ground (arith, names-lead rest)

-- The first field is the run up to a separator.
fields-word :
    (xs : Bytes)
    → (fs : List Bytes) × (fields xs ≡ take (word_len xs) xs ∷ fs)
      × (non_empty fs ≡ names (drop (word_len xs) xs))
unfolding fields names word_len
fields-word [] = ([], refl, refl)
fields-word (b ∷ rest) = elim (Bool-cases (b == slash)) [
  | inl e ↦ (fields rest, ground arith, ground arith)
  | inr e ↦ let (fs, p, q) = fields-word rest in (fs, rw (e, p), rw e q)
]

names-word :
    (b : ℕ) (rest : Bytes)
    → (b == slash) ≡ false
    → let xs = b ∷ rest in names xs ≡ take (word_len xs) xs ∷ names (drop (word_len xs) xs)
unfolding names word_len
names-word b rest e = let (fs, p, q) = fields-word (b ∷ rest) in rw (p, ← q) (ground arith)

-- Bounds of the two loops: neither passes the end.
lead-le : (xs : Bytes) → lead xs ≤ length xs
unfolding lead
lead-le [] = omega arith
lead-le (b ∷ rest) = ground (arith, lead-le rest)

word_len-le : (xs : Bytes) → word_len xs ≤ length xs
unfolding word_len
word_len-le [] = omega arith
word_len-le (b ∷ rest) = ground (arith, word_len-le rest)

word_len_pos : (b : ℕ) (r : Bytes) → (b == slash) ≡ false → 0 < word_len (b ∷ r)
unfolding word_len
word_len_pos b r e = rw e (omega arith)

-- What stands behind the separators is nothing, or begins with another byte.
drop-lead-cases :
    (xs : Bytes)
    → (lead xs ≡ length xs) × (drop (lead xs) xs ≡ [])
      ⊎ ((b : ℕ) × (rest : Bytes) × ((b == slash) ≡ false)
          × (lead xs < length xs)
          × (drop (lead xs) xs ≡ b ∷ rest))
unfolding lead
drop-lead-cases [] = inl (refl, refl)
drop-lead-cases (b ∷ rest) = elim (Bool-cases (b == slash)) [
  | inl e ↦ ground (arith, drop-lead-cases rest)
  | inr e ↦ inr (b, rest, e, ground arith, ground arith)
]

-- What one call of `next` does to the components that are left.
pub names-nil : names [] ≡ []
unfolding names fields non_empty
names-nil = refl

pub names-root : names (slash ∷ []) ≡ []
unfolding names fields non_empty
names-root = refl

-- The bytes that the iterator has not passed.
abbrev pub remaining : Components → Bytes
remaining c = drop c.position c.path

pub record Advances (c : Components) (word : Bytes) : Type 0 where
  pub result : (next c).0 ≡ some word
  pub inside : (next c).1.position ≤ length (next c).1.path
  pub left : names (remaining c) ≡ word ∷ names (remaining (next c).1)
  pub shorter : length (remaining (next c).1) < length (remaining c)

-- `next` by the lengths of the two runs.
next_runs : Components → Option Bytes × Components
unfolding lead word_len
next_runs c =
    let xs = drop (lead (drop c.position c.path)) (drop c.position c.path) in
    let start = c.position + lead (drop c.position c.path) in
    if start == length c.path
    then (none, record c { position = start })
    else (some (take (word_len xs) xs), record c { position = start + word_len xs })

next-eq-next_runs : (c : Components) → next c ≡ next_runs c
unfolding next next_runs
next-eq-next_runs c = rw (skip-lead, drop-add, scan-word_len, cancel (word_len xs))
  where
    open c use {path, position as pos}

    xs : Bytes
    xs = drop (lead (drop pos path)) (drop pos path)

    cancel : (n : ℕ) → (pos + lead (drop pos path)) + n - (pos + lead (drop pos path)) ≡ n
    cancel n = omega arith

module _ (c : Components) (b : ℕ) (r : Bytes) (inside : c.position ≤ length c.path)
    (other : (b == slash) ≡ false)
    (found : lead (drop c.position c.path) < length (drop c.position c.path))
    (at_word : drop (lead (drop c.position c.path)) (drop c.position c.path) ≡ b ∷ r) where
  open c use {path, position as pos}

  end : ℕ
  end = pos + lead (drop pos path) + word_len (b ∷ r)

  next_word : next c ≡ (some (take (word_len (b ∷ r)) (b ∷ r)), record c { position = end })
  unfolding next_runs end
  next_word = rw (next-eq-next_runs c, next_runs, at_word) (ground (arith, length-drop pos path))

  drop-end : drop end path ≡ drop (word_len (b ∷ r)) (b ∷ r)
  unfolding end
  drop-end = rw (drop-add, drop-add, at_word)

  length-at_word : lead (drop pos path) + length (b ∷ r) ≡ length (drop pos path)
  length-at_word =
      omega (arith, ap length at_word, length-drop (lead (drop pos path)) (drop pos path))

  Advances-word : Advances c (take (word_len (b ∷ r)) (b ∷ r))
  unfolding end
  Advances-word = record {
    result = rw next_word;
    inside =
        rw next_word (omega (arith, length-at_word, length-drop pos path, word_len-le (b ∷ r)));
    left = rw (next_word, drop-end, names-lead (drop pos path), at_word) (names-word b r other);
    shorter =
        rw (next_word, drop-end)
          (omega (
            arith,
            length-at_word,
            length-drop (word_len (b ∷ r)) (b ∷ r),
            word_len_pos b r other,
          ));
  }

pub next-cases :
    (c : Components)
    → c.position ≤ length c.path
    → ((next c).0 ≡ none) × (names (drop c.position c.path) ≡ [])
      ⊎ ((word : Bytes) × Advances c word)
unfolding next_runs
next-cases c h = elim (drop-lead-cases rest) [
  | inl (p, q) ↦
      inl (
        ground (arith, next-eq-next_runs c, length-drop pos path),
        rw (names-lead rest, q) names-nil,
      )
  | inr (b, r, e, lt, q) ↦ inr (take (word_len (b ∷ r)) (b ∷ r), Advances-word c b r h e lt q)
]
  where
    open c use {path, position as pos}

    rest : Bytes
    rest = drop pos path
