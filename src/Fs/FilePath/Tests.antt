-- ===== src/Fs/FilePath/Tests.antt =====
-- kernel/src/fs/path.rs at concrete paths.
use roanix.Prelude.{◌≡◌, refl, true, some, [], ◌∷◌, ok}
use roanix.Fs.FilePath.{
  Bytes, new, parsed, parse, ParentPath, split_parent, validate_path, validate_leaf_name,
  validate_name, is_dots, trim, rposition, split_at,
}
use roanix.Fs.FilePath.Names.{names, fields, non_empty}
use roanix.Fs.FilePath.Parse.{collect, collect_lem, parse_lem, any_too_long}
use roanix.Fs.FilePath.Parent.{IsParentOf, split_parent-IsParentOf}

-- `/ab//c/`
abbrev sample : Bytes
sample = 47 ∷ 97 ∷ 98 ∷ 47 ∷ 47 ∷ 99 ∷ 47 ∷ []

collect_lem_example : collect 8 (new sample) ≡ some ((97 ∷ 98 ∷ []) ∷ (99 ∷ []) ∷ [])
unfolding names fields non_empty
collect_lem_example = collect_lem sample

parse_lem_example : parse sample ≡ some (ok (parsed sample))
unfolding names fields non_empty any_too_long
parse_lem_example = parse_lem sample

-- `/ab/` and `c`
abbrev sample_parent : ParentPath
sample_parent = record { parent = 47 ∷ 97 ∷ 98 ∷ 47 ∷ []; name = 99 ∷ []; trailing_slash = true }

split_parent-sample : split_parent sample ≡ ok sample_parent
unfolding split_parent validate_path validate_leaf_name validate_name is_dots trim rposition
    split_at
split_parent-sample = refl

split_parent-IsParentOf_example : IsParentOf sample sample_parent
split_parent-IsParentOf_example = split_parent-IsParentOf sample sample_parent split_parent-sample
