-- ===== src/Driver/Property/Search.antt =====
-- kernel/src/driver/core/property.rs: the binary search of `Properties::get`.
use roanix.Prelude.{
  ℕ, zero, suc, ◌+◌, ◌-◌, ◌/◌, ◌≤◌, ◌<◌, ◌≡◌, refl, sym, subst, ap, ◌∙◌, true, false, none, some,
  [], ◌∷◌, length, get_elem?, leb, same_bytes, arith, Bool-cases, Option-cases, inl, inr, ◌⊎◌,
}
use mathlib.Core.Option.{some-injective}
use roanix.Driver.Property.{
  Str, PropValue, Entries, lookup, str_le, insert_by_name, build, at_most, halve, named, get,
}
use roanix.Driver.Property.Names.{
  same_eq, same_sym, Unique, lookup-insert, lookup-build, le_refl, le_trans, le_antisym,
}
use roanix.Driver.Property.Sorted.{Sorted, build-Sorted}

abbrev Entry : Type 0
Entry = Str × PropValue

Sorted-tail : (e : Entry) (es : Entries) → Sorted (e ∷ es) → Sorted es
Sorted-tail e [] h = tt
Sorted-tail e (f ∷ es) h = h.1

-- The first name is no greater than any other.
first_le :
    (e f : Entry) (es : Entries) (j : ℕ)
    → Sorted (e ∷ es)
    → get_elem? es j ≡ some f
    → str_le e.0 f.0 ≡ true
first_le e f [] j h a = cc
first_le e f (g ∷ es) zero (h, hs) a = ground (arith, a, h)
first_le e f (g ∷ es) (suc j) (h, hs) a = le_trans e.0 g.0 f.0 h (first_le g f es j hs a)

ordered :
    (es : Entries) (i j : ℕ) (e f : Entry)
    → Sorted es
    → i ≤ j
    → get_elem? es i ≡ some e
    → get_elem? es j ≡ some f
    → str_le e.0 f.0 ≡ true
ordered [] i j e f h le a b = cc
ordered (x ∷ es) zero zero e f h le a b =
    subst (λ (y : Entry). str_le e.0 y.0 ≡ true) (some-injective e f (sym a ∙ b)) (le_refl e.0)
ordered (x ∷ es) (suc i) zero e f h le a b = absurd (omega (arith, le))
ordered (x ∷ es) zero (suc j) e f h le a b =
    first_le e f es j (subst (λ (y : Entry). Sorted (y ∷ es)) (some-injective x e a) h) b
ordered (x ∷ es) (suc i) (suc j) e f h le a b =
    ordered es i j e f (Sorted-tail x es h) (omega (arith, le)) a b

in_range : (es : Entries) (i : ℕ) → i < length es → get_elem? es i ≡ none → ⊥
in_range [] i lt e = omega (arith, lt)
in_range (x ∷ es) zero lt e = cc
in_range (x ∷ es) (suc i) lt e = in_range es i (omega (arith, lt)) e

out_of_range : (es : Entries) (i : ℕ) → length es ≤ i → get_elem? es i ≡ none
out_of_range [] i le = refl
out_of_range (x ∷ es) zero le = absurd (omega (arith, le))
out_of_range (x ∷ es) (suc i) le = out_of_range es i (omega (arith, le))

-- Behind a greater name all are greater.
greater :
    (es : Entries) (name : Str) (i j : ℕ)
    → Sorted es
    → i < length es
    → i ≤ j
    → at_most name (get_elem? es i) ≡ false
    → at_most name (get_elem? es j) ≡ false
unfolding at_most
greater es name i j h lt le g = elim (Option-cases (get_elem? es i)) [
  | inl nothing ↦ absurd (in_range es i lt nothing)
  | inr (e, at_i) ↦ elim (Option-cases (get_elem? es j)) [
    | inl nothing ↦ rw (nothing, at_most) refl
    | inr (f, at_j) ↦ elim (Bool-cases (str_le f.0 name)) [
      | inr down ↦ rw (at_j, at_most) down
      | inl up ↦
          let below = le_trans e.0 f.0 name (ordered es i j e f h le at_i at_j) up in
          let above : str_le e.0 name ≡ false = ap (at_most name) (sym at_i) ∙ g in
          absurd (ground (arith, below, above))
    ]
  ]
]

-- The last entry whose name is no greater, or the first entry where there is none.
record IsLast (es : Entries) (name : Str) (r : ℕ) : Type 0 where
  inside : r < length es
  lower : (r ≡ 0) ⊎ (at_most name (get_elem? es r) ≡ true)
  upper : (i : ℕ) → r < i → at_most name (get_elem? es i) ≡ false

halve-IsLast :
    (fuel : ℕ) (es : Entries) (name : Str) (base size : ℕ)
    → Sorted es
    → 0 < size
    → size ≤ fuel
    → base + size ≤ length es
    → (base ≡ 0) ⊎ (at_most name (get_elem? es base) ≡ true)
    → ((i : ℕ) → base + size ≤ i → at_most name (get_elem? es i) ≡ false)
    → IsLast es name (halve fuel es name base size)
unfolding halve
halve-IsLast zero es name base size h some_size enough fits lower upper =
    absurd (omega (arith, some_size, enough))
halve-IsLast (suc fuel) es name base size h some_size enough fits lower upper =
    elim (Bool-cases (leb size 1)) [
      | inl small ↦
          rw (small, halve)
            (record {
              inside = omega (arith, fits, some_size);
              lower = lower;
              upper = λ i lt. upper i (ground (arith, some_size));
            })
      | inr large ↦
          let two : 1 < size = ground arith in
          elim (Bool-cases (at_most name (get_elem? es (base + size / 2)))) [
            | inl up ↦
                rw (large, halve, up)
                  (halve-IsLast fuel es name (base + size / 2) (size - size / 2) h (omega arith)
                    (omega (arith, two, enough)) (omega (arith, fits)) (inr up)
                    (λ i le. upper i (omega (arith, le))))
            | inr down ↦
                rw (large, halve, down)
                  (halve-IsLast fuel es name base (size - size / 2) h (omega arith)
                    (omega (arith, two, enough)) (omega (arith, fits)) lower
                    (λ i le.
                      greater es name (base + size / 2) i h (omega (arith, fits, two))
                        (omega (arith, le)) down))
          ]
    ]

-- In entries in which each name stands once, an entry with a name is the first with it.
lookup-at :
    (es : Entries) (i : ℕ) (name key : Str) (value : PropValue)
    → Unique es
    → get_elem? es i ≡ some (key, value)
    → same_bytes key name ≡ true
    → lookup name es ≡ some value
unfolding lookup
lookup-at [] i name key value u at_i same = cc
lookup-at ((j, w) ∷ es) zero name key value u at_i same = ground (arith, at_i, same)
lookup-at ((j, w) ∷ es) (suc i) name key value (apart, u) at_i same =
    elim (Bool-cases (same_bytes j name)) [
      | inl twice ↦
          let there : lookup j es ≡ some value =
            lookup-at es i j key value u at_i
              (subst (λ (s : Str). same_bytes key s ≡ true) (sym (same_eq j name twice)) same) in
          absurd (ground (arith, there, apart))
      | inr other ↦ rw other (lookup-at es i name key value u at_i same)
    ]

-- A name that is found stands somewhere.
lookup-found :
    (es : Entries) (name : Str) (value : PropValue)
    → lookup name es ≡ some value
    → (i : ℕ) × (key : Str) × (get_elem? es i ≡ some (key, value)) × (same_bytes key name ≡ true)
unfolding lookup
lookup-found [] name value e = cc
lookup-found ((j, w) ∷ es) name value e = elim (Bool-cases (same_bytes j name)) [
  | inl same ↦ (0, j, ground (arith, e, same), same)
  | inr other ↦
      let (i, key, at_i, same) = lookup-found es name value (ground (arith, e, other)) in
      (suc i, key, at_i, same)
]

-- An entry with the name is the one where the search ends.
search-ends :
    (es : Entries) (name : Str) (r i : ℕ) (e f : Entry)
    → Sorted es
    → IsLast es name r
    → get_elem? es r ≡ some e
    → get_elem? es i ≡ some f
    → same_bytes f.0 name ≡ true
    → same_bytes e.0 name ≡ true
unfolding at_most
search-ends es name r i e f h last at_r at_i same =
    let is_name : f.0 ≡ name = same_eq f.0 name same in
    let f_below : str_le f.0 name ≡ true =
      subst (λ (s : Str). str_le f.0 s ≡ true) is_name (le_refl f.0) in
    elim (Bool-cases (leb i r)) [
      | inr behind ↦
          let above : str_le f.0 name ≡ false =
            ap (at_most name) (sym at_i) ∙ last.upper i (ground arith) in
          absurd (ground (arith, f_below, above))
      | inl before ↦ elim last.lower [
        | inl first ↦
            let here : some e ≡ some f =
              sym at_r ∙ ap (get_elem? es) (ground (arith, first, before)) ∙ at_i in
            subst (λ (x : Entry). same_bytes x.0 name ≡ true) (sym (some-injective e f here)) same
        | inr below ↦
            let e_below : str_le e.0 name ≡ true = ap (at_most name) (sym at_r) ∙ below in
            let e_above : str_le name e.0 ≡ true =
              subst (λ (s : Str). str_le s e.0 ≡ true) is_name
                (ordered es i r f e h (ground arith) at_i at_r) in
            le_antisym e.0 name e_below e_above
      ]
    ]

named-lookup :
    (es : Entries) (name : Str) (r : ℕ)
    → Sorted es
    → Unique es
    → IsLast es name r
    → named name (get_elem? es r) ≡ lookup name es
unfolding named
named-lookup es name r h u last = elim (Option-cases (get_elem? es r)) [
  | inl nothing ↦ absurd (in_range es r last.inside nothing)
  | inr ((key, value), at_r) ↦ elim (Bool-cases (same_bytes key name)) [
    | inl same ↦ rw (at_r, named, same) (sym (lookup-at es r name key value u at_r same))
    | inr other ↦ elim (Option-cases (lookup name es)) [
      | inl nothing ↦ rw (at_r, named, other) (sym nothing)
      | inr (v, found) ↦
          let (i, k, at_i, same) = lookup-found es name v found in
          let ends = search-ends es name r i (key, value) (k, v) h last at_r at_i same in
          absurd (ground (arith, ends, other))
    ]
  ]
]

-- In sorted entries in which each name stands once, the binary search finds what a search from the
-- front finds.
get-lookup : (es : Entries) (name : Str) → Sorted es → Unique es → get es name ≡ lookup name es
unfolding get halve named lookup
get-lookup [] name h u = refl
get-lookup (e ∷ es) name h u =
    named-lookup (e ∷ es) name (halve (length (e ∷ es)) (e ∷ es) name 0 (length (e ∷ es))) h u (
      halve-IsLast (length (e ∷ es)) (e ∷ es) name 0 (length (e ∷ es)) h (omega arith) (omega arith)
        (omega arith) (inl refl)
        (λ i le. rw (out_of_range (e ∷ es) i (omega (arith, le)), at_most) refl))

Unique-insert :
    (k : Str) (v : PropValue) (es : Entries)
    → lookup k es ≡ none
    → Unique es
    → Unique (insert_by_name (k, v) es)
unfolding lookup insert_by_name
Unique-insert k v [] e u = (refl, tt)
Unique-insert k v ((j, w) ∷ es) e (apart, u) =
    let other : same_bytes j k ≡ false = ground (arith, e) in
    let rest : lookup k es ≡ none = ground (arith, e) in
    elim (Bool-cases (str_le k j)) [
      | inl before ↦ rw (before, insert_by_name) (e, (apart, u))
      | inr behind ↦
          rw (behind, insert_by_name)
            (
              lookup-insert k v es j rest ∙ rw (same_sym j k other) apart,
              Unique-insert k v es rest u,
            )
    ]

Unique-build : (es : Entries) → Unique es → Unique (build es)
unfolding build
Unique-build [] u = tt
Unique-build ((k, v) ∷ es) (apart, u) =
    Unique-insert k v (build es) (lookup-build es k u ∙ apart) (Unique-build es u)

-- `get` on what `build` made finds what the builder holds.
pub get-build : (es : Entries) (name : Str) → Unique es → get (build es) name ≡ lookup name es
get-build es name u =
    get-lookup (build es) name (build-Sorted es) (Unique-build es u) ∙ lookup-build es name u
