-- ===== src/Driver/Property/Names.antt =====
-- kernel/src/driver/core/property.rs: names, and entries in which each name stands once.
use roanix.Prelude.{
  ◌≡◌, refl, ap, sym, ◌∙◌, subst, true, false, none, some, [], ◌∷◌, if◌then◌else◌, same_bytes,
  arith, Bool-cases, inl, inr,
}
use roanix.Driver.Property.{Str, PropValue, Entries, str_le, lookup, insert_by_name, build}

pub same_refl : (s : Str) → same_bytes s s ≡ true
same_refl [] = refl
same_refl (x ∷ s) = ground (arith, same_refl s)

pub same_eq : (s t : Str) → same_bytes s t ≡ true → s ≡ t
same_eq [] [] e = refl
same_eq [] (y ∷ t) e = cc
same_eq (x ∷ s) [] e = cc
same_eq (x ∷ s) (y ∷ t) e =
    let h : x ≡ y = ground arith in
    let t' : same_bytes s t ≡ true = ground arith in
    ap (λ a. a ∷ s) h ∙ ap (λ r. y ∷ r) (same_eq s t t')

-- Two different names are not both the same as a third.
pub same_both :
    (j k n : Str) → same_bytes j k ≡ false → same_bytes j n ≡ true → same_bytes k n ≡ false
same_both j k n d e = elim (Bool-cases (same_bytes k n)) [
  | inr f ↦ f
  | inl f ↦
      let both : j ≡ k = same_eq j n e ∙ sym (same_eq k n f) in
      let t : same_bytes j k ≡ true = subst (λ x. same_bytes j x ≡ true) both (same_refl j) in cc
]

pub same_as : (j k n : Str) → same_bytes j k ≡ true → same_bytes j n ≡ same_bytes k n
same_as j k n e = ap (λ s. same_bytes s n) (same_eq j k e)

pub same_sym : (j k : Str) → same_bytes j k ≡ false → same_bytes k j ≡ false
same_sym j k e = elim (Bool-cases (same_bytes k j)) [
  | inr f ↦ f
  | inl f ↦
      let t : same_bytes j k ≡ true =
        subst (λ x. same_bytes j x ≡ true) (sym (same_eq k j f)) (same_refl j) in
      cc
]

abbrev pub Unique : Entries → Type 0
Unique [] = Unit {0}
Unique ((k, v) ∷ es) = (lookup k es ≡ none) × Unique es

pub lookup-insert :
    (k : Str) (v : PropValue) (es : Entries) (n : Str)
    → lookup k es ≡ none
    → lookup n (insert_by_name (k, v) es) ≡ (if same_bytes k n then some v else lookup n es)
unfolding lookup insert_by_name
lookup-insert k v [] n h = refl
lookup-insert k v ((j, w) ∷ es) n h = ground (arith, lookup-insert k v es n, same_both j k n)

pub lookup-build : (es : Entries) (n : Str) → Unique es → lookup n (build es) ≡ lookup n es
unfolding build lookup
lookup-build [] n u = refl
lookup-build ((k, v) ∷ es) n (h, u) =
    lookup-insert k v (build es) n (lookup-build es k u ∙ h)
    ∙ ap (λ r. if same_bytes k n then some v else r) (lookup-build es n u)

pub le_refl : (s : Str) → str_le s s ≡ true
unfolding str_le
le_refl [] = refl
le_refl (x ∷ s) = ground (arith, le_refl s)

pub le_trans : (r s t : Str) → str_le r s ≡ true → str_le s t ≡ true → str_le r t ≡ true
unfolding str_le
le_trans [] s t a b = refl
le_trans (x ∷ r) [] t a b = cc
le_trans (x ∷ r) (y ∷ s) [] a b = cc
le_trans (x ∷ r) (y ∷ s) (z ∷ t) a b = ground (arith, a, b, le_trans r s t)

pub le_antisym : (s t : Str) → str_le s t ≡ true → str_le t s ≡ true → same_bytes s t ≡ true
unfolding str_le
le_antisym [] [] a b = refl
le_antisym [] (y ∷ t) a b = cc
le_antisym (x ∷ s) [] a b = cc
le_antisym (x ∷ s) (y ∷ t) a b = ground (arith, a, b, le_antisym s t)
