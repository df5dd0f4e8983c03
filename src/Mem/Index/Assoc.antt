-- ===== src/Mem/Index/Assoc.antt =====
-- Association lists in key order, by which the index's tree is described.
use roanix.Prelude.{ℕ, Option, none, some, List, [], ◌∷◌, ltb, ◌==◌, if◌then◌else◌}

module _ {V : Type 0} where
  abbrev pub lookup : ℕ → List (ℕ × V) → Option V
  lookup k [] = none
  lookup k ((j, v) ∷ es) = if j == k then some v else lookup k es

  abbrev pub insert_sorted : ℕ → V → List (ℕ × V) → List (ℕ × V)
  insert_sorted k v [] = (k, v) ∷ []
  insert_sorted k v ((j, w) ∷ es) =
      if ltb k j then (k, v) ∷ (j, w) ∷ es else (j, w) ∷ insert_sorted k v es

  abbrev pub erase : ℕ → List (ℕ × V) → List (ℕ × V)
  erase k [] = []
  erase k ((j, w) ∷ es) = if j == k then es else (j, w) ∷ erase k es

  abbrev pub put : ℕ → V → List (ℕ × V) → List (ℕ × V)
  put k v [] = []
  put k v ((j, w) ∷ es) = if j == k then (j, v) ∷ es else (j, w) ∷ put k v es

  -- The last entry with a key below `k`.
  abbrev pub last_below : ℕ → List (ℕ × V) → Option (ℕ × V)
  last_below k [] = none
  last_below k ((j, w) ∷ es) = elim (last_below k es) [
    | some e ↦ some e
    | none ↦ if ltb j k then some (j, w) else none
  ]

  -- The first entry with a key above `k`.
  abbrev pub first_above : ℕ → List (ℕ × V) → Option (ℕ × V)
  first_above k [] = none
  first_above k ((j, w) ∷ es) = if ltb k j then some (j, w) else first_above k es
