-- ===== src/Driver/Property/Edits.antt =====
-- The builder of kernel/src/driver/core/property.rs as a map from names to values.
use roanix.Prelude.{
  ◌≤◌, ◌<◌, ◌≡◌, refl, ap, sym, ◌∙◌, false, Option, none, some, [], ◌∷◌, ◌++◌, length,
  length-append, if◌then◌else◌, same_bytes, arith, Bool-cases, Option-cases, inl, inr, ◌⊎◌, Result,
  ok,
}
use roanix.Driver.Property.{
  Str, Error, PropValue, Entries, lookup, replace, set, remove, build, get,
}
use roanix.Driver.Property.Names.{same_both, same_as, same_sym, Unique}
use roanix.Driver.Property.Search.{get-build}

lookup-replace :
    (name : Str) (v old : PropValue) (es : Entries) (n : Str)
    → lookup name es ≡ some old
    → lookup n (replace name v es) ≡ (if same_bytes name n then some v else lookup n es)
unfolding lookup replace
lookup-replace name v old [] n h = cc
lookup-replace name v old ((j, w) ∷ es) n h =
    ground (arith, lookup-replace name v old es n, same_as j name n, same_both j name n)

lookup-append :
    (name : Str) (v : PropValue) (es : Entries) (n : Str)
    → lookup name es ≡ none
    → lookup n (es ++ ((name, v) ∷ [])) ≡ (if same_bytes name n then some v else lookup n es)
unfolding lookup
lookup-append name v [] n h = refl
lookup-append name v ((j, w) ∷ es) n h =
    ground (arith, lookup-append name v es n, same_both j name n)

lookup-remove :
    (name : Str) (es : Entries) (n : Str)
    → lookup n (remove name es) ≡ (if same_bytes name n then none else lookup n es)
unfolding lookup remove
lookup-remove name [] n = ground arith
lookup-remove name ((j, w) ∷ es) n =
    ground (arith, lookup-remove name es n, same_as j name n, same_both j name n)

Unique-replace :
    (name : Str) (v old : PropValue) (es : Entries)
    → lookup name es ≡ some old
    → Unique es
    → Unique (replace name v es)
unfolding lookup replace
Unique-replace name v old [] h u = tt
Unique-replace name v old ((j, w) ∷ es) h (k, u) = elim (Bool-cases (same_bytes j name)) [
  | inl e ↦ rw (replace, e) (k, u)
  | inr e ↦
      let h' : lookup name es ≡ some old = ground arith in
      rw (replace, e)
        (
          lookup-replace name v old es j h' ∙ rw (same_sym j name e) k,
          Unique-replace name v old es h' u,
        )
]

Unique-append :
    (name : Str) (v : PropValue) (es : Entries)
    → lookup name es ≡ none
    → Unique es
    → Unique (es ++ ((name, v) ∷ []))
unfolding lookup
Unique-append name v [] h u = (refl, tt)
Unique-append name v ((j, w) ∷ es) h (k, u) =
    let d : same_bytes j name ≡ false = ground arith in
    let h' : lookup name es ≡ none = ground arith in
    (lookup-append name v es j h' ∙ rw (same_sym j name d) k, Unique-append name v es h' u)

Unique-remove : (name : Str) (es : Entries) → Unique es → Unique (remove name es)
unfolding remove
Unique-remove name [] u = tt
Unique-remove name ((j, w) ∷ es) (k, u) = elim (Bool-cases (same_bytes j name)) [
  | inl e ↦ rw (remove, e) (Unique-remove name es u)
  | inr e ↦ rw (remove, e) (ground (arith, lookup-remove name es j, k), Unique-remove name es u)
]

length-replace :
    (name : Str) (v : PropValue) (es : Entries) → length (replace name v es) ≡ length es
unfolding replace
length-replace name v [] = refl
length-replace name v ((j, w) ∷ es) = ground (arith, length-replace name v es)

length-remove : (name : Str) (es : Entries) → length (remove name es) ≤ length es
unfolding remove
length-remove name [] = omega arith
length-remove name ((j, w) ∷ es) = ground (arith, length-remove name es)

-- What a builder may hold: each name once, and as many entries as fit.
pub record IsBuilder (es : Entries) : Type 0 where
  pub unique : Unique es
  pub bounded : length es ≤ 256

-- One edit of a builder, and what it does to a map from names to values.
pub data Edit : Type 0 where
  sets : Str → PropValue → Edit
  removes : Str → Edit

unfoldable pub apply : Edit → Entries → Result Error Entries
apply (sets name v) es = set name v es
apply (removes name) es = ok (remove name es)

unfoldable pub edited : Edit → (Str → Option PropValue) → Str → Option PropValue
edited (sets name v) m n = if same_bytes name n then some v else m n
edited (removes name) m n = if same_bytes name n then none else m n

set-cases :
    (name : Str) (v : PropValue) (es fs : Entries)
    → set name v es ≡ ok fs
    → ((old : PropValue) × (lookup name es ≡ some old) × (fs ≡ replace name v es))
      ⊎ ((lookup name es ≡ none) × (length es < 256) × (fs ≡ es ++ ((name, v) ∷ [])))
unfolding set
set-cases name v es fs e = elim (Option-cases (lookup name es)) [
  | inl h ↦ inr (h, ground arith, ground arith)
  | inr (old, h) ↦ inl (old, h, ground arith)
]

-- An edit that succeeds of entries that a builder may hold does to what `get` finds in the properties
-- built from them what it does to a map, and the entries stay ones that a builder may hold.
pub get-apply :
    (x : Edit) (es fs : Entries) (n : Str)
    → IsBuilder es
    → apply x es ≡ ok fs
    → IsBuilder fs × (get (build fs) n ≡ edited x (get (build es)) n)
unfolding apply edited
get-apply (sets name v) es fs n b e = elim (set-cases name v es fs e) [
  | inl (old, h, f) ↦
      let u = Unique-replace name v old es h b.unique in
      rw f (
        record { unique = u; bounded = omega (arith, length-replace name v es, b.bounded) },
        get-build (replace name v es) n u
            ∙ lookup-replace name v old es n h
            ∙ ap (λ r. if same_bytes name n then some v else r) (sym (get-build es n b.unique)),
      )
  | inr (h, room, f) ↦
      let u = Unique-append name v es h b.unique in
      rw f (
        record { unique = u; bounded = omega (arith, length-append es ((name, v) ∷ [])) },
        get-build (es ++ ((name, v) ∷ [])) n u
            ∙ lookup-append name v es n h
            ∙ ap (λ r. if same_bytes name n then some v else r) (sym (get-build es n b.unique)),
      )
]
get-apply (removes name) es fs n b e =
    let f : fs ≡ remove name es = ground arith in
    let u = Unique-remove name es b.unique in
    rw f (
      record { unique = u; bounded = omega (arith, length-remove name es, b.bounded) },
      get-build (remove name es) n u
          ∙ lookup-remove name es n
          ∙ ap (λ r. if same_bytes name n then none else r) (sym (get-build es n b.unique)),
    )
