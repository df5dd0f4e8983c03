-- ===== src/Fs/Partition/Tests.antt =====
-- kernel/src/fs/partition.rs at a disk of 100 blocks with a primary and a logical partition.
use roanix.Prelude.{
  ℕ, ◌+◌, ◌≤◌, ◌≡◌, refl, ◌⊎◌, inl, true, List, [], ◌∷◌, ◌++◌, replicate, ◌==◌, if◌then◌else◌,
  arith, ok, err,
}
use roanix.Fs.Partition.{
  io, Partition, map, range, le32, from_le_bytes, is_extended, sort_by, insert_by, check_ranges,
  validate_ranges,
}
use roanix.Fs.Partition.Table.{
  BlockDevice, fetch, has_signature, is_range, protective, discover, discover_mbr, mbr_entries,
  discover_ebr, follow_links, logical_partition, end_within, add_found,
}
use roanix.Fs.Partition.Ranges.{Each, InDisk, AllApart, map-Apart}
use roanix.Fs.Partition.Links.{Extends, discover_ebr-Extends}
use roanix.Fs.Partition.Discovery.{discover-Sound}

-- An entry of a table, with its numbers below 256.
abbrev entry : ℕ → ℕ → ℕ → List ℕ
entry kind first blocks =
    0 ∷ 0 ∷ 0 ∷ 0 ∷ kind ∷ 0 ∷ 0 ∷ 0 ∷ first ∷ 0 ∷ 0 ∷ 0 ∷ blocks ∷ 0 ∷ 0 ∷ 0 ∷ []

abbrev sector : List ℕ → List ℕ → List ℕ
sector a b = replicate 446 0 ++ (a ++ (b ++ (replicate 32 0 ++ (0x55 ∷ 0xaa ∷ []))))

abbrev disk : BlockDevice
disk = record {
  logical_block_size = 512;
  block_count = 100;
  read_blocks = λ lba blocks.
      if lba == 0
      then ok (sector (entry 0x83 1 10) (entry 0x05 50 20))
      else if lba == 50
      then ok (sector (entry 0x83 1 5) (replicate 16 0))
      else err io;
  memory = λ bytes. true;
}

abbrev primary : Partition
primary = record { number = 1; first = 1; blocks = 10 }

abbrev logical : Partition
logical = record { number = 5; first = 51; blocks = 5 }

discover-disk : discover disk ≡ ok (primary ∷ logical ∷ [])
unfolding discover fetch has_signature is_range range protective discover_mbr mbr_entries
    discover_ebr follow_links logical_partition end_within add_found le32 from_le_bytes is_extended
    validate_ranges check_ranges sort_by insert_by
discover-disk = refl

discover-Sound_example :
    Each (InDisk 100) (primary ∷ logical ∷ []) × AllApart (primary ∷ logical ∷ [])
discover-Sound_example = discover-Sound disk (primary ∷ logical ∷ []) discover-disk

ebr-disk : discover_ebr disk 50 20 (5, primary ∷ []) ≡ ok (6, primary ∷ logical ∷ [])
unfolding fetch has_signature is_range range discover_ebr follow_links logical_partition end_within
    add_found le32 from_le_bytes is_extended
ebr-disk = refl

discover_ebr-Extends_example :
    (50 + 20 ≤ 100) × Extends 50 70 128 (5, primary ∷ []) (6, primary ∷ logical ∷ [])
discover_ebr-Extends_example =
    discover_ebr-Extends disk 50 20 (5, primary ∷ []) (6, primary ∷ logical ∷ []) ebr-disk

map-primary : map (record { first = 1; blocks = 10 }) 2 3 ≡ ok 3
unfolding map
map-primary = refl

map-logical : map (record { first = 51; blocks = 5 }) 0 5 ≡ ok 51
unfolding map
map-logical = refl

map-Apart_example : (1 ≤ 3) × (3 + 3 ≤ 1 + 10) × ((3 + 3 ≤ 51) ⊎ (51 + 5 ≤ 3))
map-Apart_example =
    map-Apart primary logical 2 3 3 0 5 51 (inl (omega arith)) map-primary map-logical
