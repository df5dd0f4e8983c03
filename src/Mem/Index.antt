-- ===== src/Mem/Index.antt =====
-- kernel/src/mem/index.rs: an ordered index of `u64` keys over an intrusive red-black tree.
-- The tree is a third-party container, so it is a parameter: a record of its operations with
-- what its documentation says of each, in terms of the entries that its iterator visits.
pub mod Assoc
pub mod ListTree
use roanix.Prelude.{Bool, true, false, ℕ, ◌≡◌, Option, none, some, List, [], ◌==◌, if◌then◌else◌}
use roanix.Prelude.Outcomes.{Outcome, done, fail, panic}
use Assoc.{lookup, insert_sorted, erase, put, last_below, first_above}

pub record OrderedTree (V : Type 0) : Type 1 where
  pub Tree : Type 0
  pub empty : Tree
  -- `iter`: the entries in key order
  pub entries : Tree → List (ℕ × V)
  pub find : ℕ → Tree → Option V
  pub insert : ℕ → V → Tree → Tree
  pub remove : ℕ → Tree → Tree
  -- a write through the reference that `find` returns
  pub write : ℕ → V → Tree → Tree
  pub entries-empty : entries empty ≡ []
  pub find_lem : (k : ℕ) (t : Tree) → find k t ≡ lookup k (entries t)
  pub entries-insert :
      (k : ℕ) (v : V) (t : Tree)
      → lookup k (entries t) ≡ none
      → entries (insert k v t) ≡ insert_sorted k v (entries t)
  pub entries-remove : (k : ℕ) (t : Tree) → entries (remove k t) ≡ erase k (entries t)
  pub entries-write : (k : ℕ) (v : V) (t : Tree) → entries (write k v t) ≡ put k v (entries t)

module _ {V : Type 0} (T : OrderedTree V) {E : Type 0} where
  open T use {Tree, entries, find, insert, remove, write}

  -- `Index::insert`. A reserved node is known by its key.
  unfoldable pub publish : ℕ → V → Option ℕ → Tree → Outcome E Tree
  publish key value reserved t = elim (find key t) [
    | some old ↦ done (write key value t)
    | none ↦ elim reserved [
      | none ↦ panic
      | some node ↦ if node == key then done (insert key value t) else panic
    ]
  ]

module _ {V : Type 0} (T : OrderedTree V) where
  open T use {Tree, entries}

  -- `range(..key).next_back()`
  abbrev pub previous : ℕ → Tree → Option (ℕ × V)
  previous key t = last_below key (entries t)

  -- `range((Excluded(key), Unbounded)).next()`
  abbrev pub following : ℕ → Tree → Option (ℕ × V)
  following key t = first_above key (entries t)

module _ {V : Type 0} (T : OrderedTree V) where
  open T use {Tree, find}

  -- `Index::get`
  abbrev pub value_at : ℕ → Tree → Option V
  value_at key t = find key t

  unfoldable pub contains_key : ℕ → Tree → Bool
  contains_key key t = elim (value_at key t) [ none ↦ false | some v ↦ true ]

module _ {V : Type 0} (T : OrderedTree V) {E : Type 0} where
  open T use {Tree, find, insert, remove}

  -- `reserve_new`: whether the pool has a node is up to the rest of the kernel.
  unfoldable pub reserve_new : (ℕ → Bool) → E → ℕ → Outcome E ℕ
  reserve_new pool out_of_memory key = if pool key then done key else fail out_of_memory

  unfoldable pub reserve : (ℕ → Bool) → E → ℕ → Tree → Outcome E (Option ℕ)
  reserve pool out_of_memory key t =
      if contains_key T key t then done none else elim (reserve_new pool out_of_memory key) [
        | done node ↦ done (some node)
        | fail e ↦ fail e
        | panic ↦ panic
      ]

  unfoldable pub rekey : ℕ → ℕ → Tree → Outcome E Tree
  rekey old new t =
      if contains_key T new t
      then panic
      else elim (find old t) [ none ↦ panic | some v ↦ done (insert new v (remove old t)) ]
