-- ===== src/Mem/Index/ListTree.antt =====
-- An ordered list meets what the index of kernel/src/mem/index.rs asks of its tree.
use roanix.Prelude.{ℕ, refl, List, []}
use roanix.Mem.Index.{OrderedTree}
use roanix.Mem.Index.Assoc.{lookup, insert_sorted, erase, put}

abbrev pub list_tree : (V : Type 0) → OrderedTree V
list_tree V = record {
  Tree = List (ℕ × V);
  empty = [];
  entries = λ t. t;
  find = lookup;
  insert = insert_sorted;
  remove = erase;
  write = put;
  entries-empty = refl;
  find_lem = λ k t. refl;
  entries-insert = λ k v t h. refl;
  entries-remove = λ k t. refl;
  entries-write = λ k v t. refl;
}
