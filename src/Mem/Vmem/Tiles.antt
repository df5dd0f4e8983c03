-- ===== src/Mem/Vmem/Tiles.antt =====
-- Lists of tags in address order, and what the index's operations do to them. For the arena of
-- kernel/src/mem/vmem.rs.
use roanix.Prelude.{
  ℕ, ◌+◌, ◌≤◌, ◌<◌, ◌≡◌, refl, ap, Bool, true, ◌&&◌, Option, none, some, List, [], ◌∷◌, ◌++◌, ltb,
  leb, ◌==◌, if◌then◌else◌, arith, Bool-cases, Option-cases, inl, inr,
}
use roanix.Mem.Index.Assoc.{lookup, insert_sorted, erase, put, last_below, first_above}
use roanix.Mem.Vmem.Arena.{Segment, end}

abbrev pub Tags : Type 0
Tags = List (ℕ × Segment)

-- The tags lie in `lo .. hi` in address order, without overlap; none is empty, and each stands
-- under its base.
abbrev pub Tiles : ℕ → Tags → ℕ → Type 0
Tiles lo [] hi = lo ≤ hi
Tiles lo ((k, s) ∷ es) hi = (k ≡ s.base) × (lo ≤ k) × (0 < s.size) × Tiles (end s) es hi

-- Whether the byte at `a` belongs to a span, and is free.
unfoldable pub status : Tags → ℕ → Option Bool
status [] a = none
status ((k, s) ∷ es) a = if leb k a && ltb a (end s) then some s.free else status es a

-- How many bytes are allocated, and how many belong to spans.
unfoldable pub allocated : Tags → ℕ
allocated [] = 0
allocated ((k, s) ∷ es) = (if s.free then 0 else s.size) + allocated es

unfoldable pub spanned : Tags → ℕ
spanned [] = 0
spanned ((k, s) ∷ es) = s.size + spanned es

unfoldable pub or_else : Option Bool → Option Bool → Option Bool
or_else none o = o
or_else (some b) o = some b

pub Tiles-le : (xs : Tags) (lo hi : ℕ) → Tiles lo xs hi → lo ≤ hi
Tiles-le [] lo hi t = t
Tiles-le ((k, s) ∷ xs) lo hi t = omega (arith, Tiles-le xs (end s) hi t.3)

pub Tiles-append :
    (xs ys : Tags) (lo mid hi : ℕ) → Tiles lo xs mid → Tiles mid ys hi → Tiles lo (xs ++ ys) hi
Tiles-append [] [] lo mid hi t u = omega arith
Tiles-append [] ((k, s) ∷ ys) lo mid hi t u = (u.0, omega arith, u.2, u.3)
Tiles-append ((k, s) ∷ xs) ys lo mid hi t u =
    (t.0, t.1, t.2, Tiles-append xs ys (end s) mid hi t.3 u)

pub status-append :
    (xs ys : Tags) (a : ℕ) → status (xs ++ ys) a ≡ or_else (status xs a) (status ys a)
unfolding status or_else
status-append [] ys a = refl
status-append ((k, s) ∷ xs) ys a = ground (arith, status-append xs ys a)

pub allocated-append : (xs ys : Tags) → allocated (xs ++ ys) ≡ allocated xs + allocated ys
unfolding allocated
allocated-append [] ys = omega arith
allocated-append ((k, s) ∷ xs) ys = omega (arith, allocated-append xs ys)

pub spanned-append : (xs ys : Tags) → spanned (xs ++ ys) ≡ spanned xs + spanned ys
unfolding spanned
spanned-append [] ys = omega arith
spanned-append ((k, s) ∷ xs) ys = omega (arith, spanned-append xs ys)

-- Tags that end by `m` say nothing of what lies from `m` on.
pub status_after : (xs : Tags) (a lo m : ℕ) → Tiles lo xs m → m ≤ a → status xs a ≡ none
unfolding status
status_after [] a lo m t h = refl
status_after ((k, s) ∷ xs) a lo m t h =
    ground (arith, status_after xs a (end s) m t.3 h, Tiles-le xs (end s) m t.3)

pub lookup-after :
    (xs ys : Tags) (k lo m : ℕ) → Tiles lo xs m → m ≤ k → lookup k (xs ++ ys) ≡ lookup k ys
lookup-after [] ys k lo m t h = refl
lookup-after ((j, s) ∷ xs) ys k lo m t h =
    ground (arith, lookup-after xs ys k (end s) m t.3 h, Tiles-le xs (end s) m t.3)

pub put-after :
    (xs ys : Tags) (k : ℕ) (v : Segment) (lo m : ℕ)
    → Tiles lo xs m
    → m ≤ k
    → put k v (xs ++ ys) ≡ xs ++ put k v ys
put-after [] ys k v lo m t h = refl
put-after ((j, s) ∷ xs) ys k v lo m t h =
    ground (arith, put-after xs ys k v (end s) m t.3 h, Tiles-le xs (end s) m t.3)

pub erase-after :
    (xs ys : Tags) (k lo m : ℕ) → Tiles lo xs m → m ≤ k → erase k (xs ++ ys) ≡ xs ++ erase k ys
erase-after [] ys k lo m t h = refl
erase-after ((j, s) ∷ xs) ys k lo m t h =
    ground (arith, erase-after xs ys k (end s) m t.3 h, Tiles-le xs (end s) m t.3)

pub insert_sorted-after :
    (xs ys : Tags) (k : ℕ) (v : Segment) (lo m : ℕ)
    → Tiles lo xs m
    → m ≤ k
    → insert_sorted k v (xs ++ ys) ≡ xs ++ insert_sorted k v ys
insert_sorted-after [] ys k v lo m t h = refl
insert_sorted-after ((j, s) ∷ xs) ys k v lo m t h =
    ground (arith, insert_sorted-after xs ys k v (end s) m t.3 h, Tiles-le xs (end s) m t.3)

pub first_above-after :
    (xs ys : Tags) (k lo m : ℕ)
    → Tiles lo xs m
    → m ≤ k
    → first_above k (xs ++ ys) ≡ first_above k ys
first_above-after [] ys k lo m t h = refl
first_above-after ((j, s) ∷ xs) ys k lo m t h =
    ground (arith, first_above-after xs ys k (end s) m t.3 h, Tiles-le xs (end s) m t.3)

-- Tags from `m` on say nothing of what lies below.
pub lookup-before : (ys : Tags) (k m hi : ℕ) → Tiles m ys hi → k < m → lookup k ys ≡ none
lookup-before [] k m hi t h = refl
lookup-before ((j, s) ∷ ys) k m hi t h =
    ground (arith, lookup-before ys k (end s) hi t.3 (omega arith))

pub status_before : (ys : Tags) (a m hi : ℕ) → Tiles m ys hi → a < m → status ys a ≡ none
unfolding status
status_before [] a m hi t h = refl
status_before ((k, s) ∷ ys) a m hi t h =
    ground (arith, status_before ys a (end s) hi t.3 (omega arith))

pub insert_sorted-before :
    (ys : Tags) (k : ℕ) (v : Segment) (m hi : ℕ)
    → Tiles m ys hi
    → k < m
    → insert_sorted k v ys ≡ (k, v) ∷ ys
insert_sorted-before [] k v m hi t h = refl
insert_sorted-before ((j, s) ∷ ys) k v m hi t h = ground arith

last_below-before_nil : (ys : Tags) (k m hi : ℕ) → Tiles m ys hi → k ≤ m → last_below k ys ≡ none
last_below-before_nil [] k m hi t h = refl
last_below-before_nil ((j, s) ∷ ys) k m hi t h =
    ground (arith, last_below-before_nil ys k (end s) hi t.3 (omega arith))

pub last_below-before :
    (xs ys : Tags) (k m hi : ℕ) → Tiles m ys hi → k ≤ m → last_below k (xs ++ ys) ≡ last_below k xs
last_below-before [] ys k m hi t h = last_below-before_nil ys k m hi t h
last_below-before ((j, s) ∷ xs) ys k m hi t h = ground (arith, last_below-before xs ys k m hi t h)

-- The last entry below `k` is an entry.
pub last_below-lookup :
    (xs : Tags) (k j : ℕ) (s : Segment) (lo hi : ℕ)
    → Tiles lo xs hi
    → last_below k xs ≡ some (j, s)
    → (lookup j xs ≡ some s) × (j < k) × (lo ≤ j)
last_below-lookup [] k j s lo hi t e = cc
last_below-lookup ((i, u) ∷ xs) k j s lo hi t e = elim (Option-cases (last_below k xs)) [
  | inl n ↦ ground arith
  | inr (f, n) ↦ ground (arith, last_below-lookup xs k f.0 f.1 (end u) hi t.3)
]

-- The last of the tags below `k`, where all are.
pub data LastTag (k : ℕ) (xs : Tags) : Type 0 where
  none_there : xs ≡ [] → last_below k xs ≡ none → LastTag k xs
  ends :
      (init : Tags) (j : ℕ) (s : Segment)
      → xs ≡ init ++ ((j, s) ∷ [])
      → last_below k xs ≡ some (j, s)
      → LastTag k xs

pub last_tag : (xs : Tags) (k lo m : ℕ) → Tiles lo xs m → m ≤ k → LastTag k xs
last_tag [] k lo m t h = none_there refl refl
last_tag ((j, s) ∷ xs) k lo m t h = elim (last_tag xs k (end s) m t.3 h) [
  | none_there e n ↦ ends [] j s (rw e) (ground (arith, Tiles-le xs (end s) m t.3))
  | ends init i u e n ↦ ends ((j, s) ∷ init) i u (rw e) (ground arith)
]

-- A list of tags with one in the middle.
pub Tiles-split :
    (xs ys : Tags) (k : ℕ) (s : Segment) (lo hi : ℕ)
    → Tiles lo (xs ++ ((k, s) ∷ ys)) hi
    → Tiles lo xs k × (k ≡ s.base) × (0 < s.size) × Tiles (end s) ys hi
Tiles-split [] ys k s lo hi t = (t.1, t.0, t.2, t.3)
Tiles-split ((j, u) ∷ xs) ys k s lo hi t =
    let (left, base, size, right) = Tiles-split xs ys k s (end u) hi t.3 in
    ((t.0, t.1, t.2, left), base, size, right)

-- A list of tags taken apart at one of them.
pub record Located (lo : ℕ) (L : Tags) (hi k : ℕ) (s : Segment) : Type 0 where
  pub before : Tags
  pub after : Tags
  pub parts : L ≡ before ++ ((k, s) ∷ after)
  pub base : k ≡ s.base
  pub left : Tiles lo before k
  pub size : 0 < s.size
  pub right : Tiles (end s) after hi

pub locate :
    (L : Tags) (k : ℕ) (s : Segment) (lo hi : ℕ)
    → Tiles lo L hi
    → lookup k L ≡ some s
    → Located lo L hi k s
locate [] k s lo hi t e = cc
locate ((j, u) ∷ L) k s lo hi t e = elim (Bool-cases (j == k)) [
  | inl p ↦ here p (ground arith)
  | inr p ↦
      let l = locate L k s (end u) hi t.3 (rw p at e) in
      record {
        before = (j, u) ∷ l.before;
        after = l.after;
        parts = ap (λ r. (j, u) ∷ r) l.parts;
        base = l.base;
        left = (t.0, t.1, t.2, l.left);
        size = l.size;
        right = l.right;
      }
]
  where
    here : (j == k) ≡ true → u ≡ s → Located lo ((j, u) ∷ L) hi k s
    here p q = rw (← q) (
        rw (← jk) (record {
          before = [];
          after = L;
          parts = refl;
          base = t.0;
          left = t.1;
          size = t.2;
          right = t.3;
        }))
      where
        jk : j ≡ k
        jk = ground arith
