-- ===== src/Fs/Partition/Table.antt =====
-- kernel/src/fs/partition.rs: discovery of partitions in GPT and MBR tables. The disk below is an
-- argument: its sizes and its `read_blocks`, and whether the kernel has memory for a buffer.
use roanix.Prelude.{
  same_bytes, ℕ, zero, suc, ◌+◌, ◌-◌, ◌*◌, ◌/◌, ◌%◌, Bool, true, false, not, ◌&&◌, ◌||◌, Option,
  none, some, List, [], ◌∷◌, ◌++◌, take, drop, get_or, is_empty, contains, ltb, leb, ◌==◌,
  if◌then◌else◌, checked_add, Result, ok, err, ◌>>=◌, ◌>>◌, guard, ok_or,
}
use roanix.Fs.Partition.{
  Error, invalid_argument, not_found, io, out_of_memory, Partition, range, le32, le64, crc32,
  is_extended, validate_ranges,
}

pub record BlockDevice : Type 0 where
  pub logical_block_size : ℕ
  pub block_count : ℕ
  pub read_blocks : ℕ → ℕ → Result Error (List ℕ)
  pub memory : ℕ → Bool

-- The bytes of `EFI PART`.
abbrev pub gpt_signature : List ℕ
gpt_signature = 69 ∷ 70 ∷ 73 ∷ 32 ∷ 80 ∷ 65 ∷ 82 ∷ 84 ∷ []

abbrev pub gpt_min_header : ℕ
gpt_min_header = 92

abbrev pub gpt_min_entry : ℕ
gpt_min_entry = 128

abbrev pub max_gpt_entries : ℕ
max_gpt_entries = 4096

abbrev pub max_gpt_bytes : ℕ
max_gpt_bytes = 16 * 1024 * 1024

abbrev pub max_ebr_links : ℕ
max_ebr_links = 128

unfoldable pub is_range : List ℕ → ℕ → ℕ → List ℕ → Bool
is_range bytes start stop expected = elim (range bytes start stop) [
  | some found ↦ same_bytes found expected
  | none ↦ false
]

unfoldable pub has_signature : List ℕ → Bool
has_signature sector = is_range sector 510 512 (0x55 ∷ 0xaa ∷ [])

unfoldable pub all_zero : List ℕ → Bool
all_zero [] = true
all_zero (b ∷ bytes) = b == 0 && all_zero bytes

-- `zeroed` and the read into the buffer.
unfoldable pub fetch : BlockDevice → ℕ → ℕ → Result Error (List ℕ)
fetch d lba blocks = do
  guard (d.memory (blocks * d.logical_block_size)) out_of_memory
  d.read_blocks lba blocks

-- The loop of `discover_gpt` over the `n` entries from `index` on.
unfoldable pub gpt_entries :
    List ℕ → ℕ → ℕ → ℕ → ℕ → ℕ → List Partition → Result Error (List Partition)
gpt_entries entries entry_size first_usable last_usable zero index output = ok output
gpt_entries entries entry_size first_usable last_usable (suc n) index output =
    let entry = take entry_size (drop (index * entry_size) entries) in
    elim (all_zero (take 16 entry)) [
      | true ↦ gpt_entries entries entry_size first_usable last_usable n (index + 1) output
      | false ↦ do
        first ← le64 entry 32
        last ← le64 entry 40
        guard (not (ltb first first_usable || ltb last_usable last || ltb last first))
            invalid_argument
        let p : Partition = record { number = index + 1; first = first; blocks = last - first + 1 }
        gpt_entries entries entry_size first_usable last_usable n (index + 1) (output ++ (p ∷ []))
    ]

-- `discover_gpt` up to its last call.
unfoldable pub gpt_partitions : BlockDevice → Result Error (List Partition)
gpt_partitions d = do
  guard (not (ltb d.block_count 2)) invalid_argument
  header ← fetch d 1 1
  guard (is_range header 0 8 gpt_signature) invalid_argument
  header_size ← le32 header 12
  guard (leb gpt_min_header header_size && leb header_size d.logical_block_size) invalid_argument
  stored_header_crc ← le32 header 16
  let checked_header = take 16 header ++ ((0 ∷ 0 ∷ 0 ∷ 0 ∷ []) ++ drop 20 (take header_size header))
  guard (crc32 checked_header == stored_header_crc) io
  own_lba ← le64 header 24
  guard (own_lba == 1) invalid_argument
  backup_lba ← le64 header 32
  guard (not (leb d.block_count backup_lba)) invalid_argument
  first_usable ← le64 header 40
  last_usable ← le64 header 48
  guard (not (ltb last_usable first_usable || leb d.block_count last_usable)) invalid_argument
  entries_lba ← le64 header 72
  entry_count ← le32 header 80
  entry_size ← le32 header 84
  guard
      (not (
        entry_count == 0
        || ltb max_gpt_entries entry_count
        || ltb entry_size gpt_min_entry
        || not (entry_size % 8 == 0)))
      invalid_argument
  let bytes = entry_count * entry_size
  guard (not (ltb max_gpt_bytes bytes)) invalid_argument
  let blocks = (bytes + (d.logical_block_size - 1)) / d.logical_block_size
  stop ← ok_or (checked_add entries_lba blocks) invalid_argument
  guard (not (entries_lba == 0 || ltb d.block_count stop)) invalid_argument
  entries ← fetch d entries_lba blocks
  entries_crc ← le32 header 88
  guard (crc32 (take bytes entries) == entries_crc) io
  gpt_entries entries entry_size first_usable last_usable entry_count 0 []

unfoldable pub discover_gpt : BlockDevice → Result Error (List Partition)
discover_gpt d = do output ← gpt_partitions d; validate_ranges output d.block_count

-- `checked_add` with a bound: the end of a container, or of a partition in it.
unfoldable pub end_within : ℕ → ℕ → ℕ → Result Error ℕ
end_within first blocks bound = do
  stop ← ok_or (checked_add first blocks) invalid_argument
  guard (leb stop bound) invalid_argument
  ok stop

-- The logical partition that an EBR describes, if it describes one.
unfoldable pub logical_partition : ℕ → ℕ → ℕ → List ℕ → ℕ → Result Error (Option Partition)
logical_partition base container_end ebr_lba logical number = do
  let kind = get_or logical 4 0
  first_relative ← le32 logical 8
  blocks ← le32 logical 12
  if not (kind == 0) && not (blocks == 0) && not (is_extended kind)
      then (do
        first ← ok_or (checked_add ebr_lba first_relative) invalid_argument
        guard (not (ltb first base)) invalid_argument
        _ ← end_within first blocks container_end
        ok (some (record { number = number; first = first; blocks = blocks })))
      else ok none

-- The logical number and the partitions found so far.
abbrev pub Found : Type 0
Found = ℕ × List Partition

unfoldable pub add_found : Option Partition → Found → Found
add_found none found = found
add_found (some p) found = (found.0 + 1, found.1 ++ (p ∷ []))

-- The loop of `discover_ebr`, for as many links as are left. A link that is not extended counts
-- as one of no blocks.
unfoldable pub follow_links : ℕ → BlockDevice → ℕ → ℕ → ℕ → List ℕ → Found → Result Error Found
follow_links zero d base container_end relative visited found = err invalid_argument
follow_links (suc n) d base container_end relative visited found = do
  ebr_lba ← ok_or (checked_add base relative) invalid_argument
  guard (not (ltb ebr_lba base || leb container_end ebr_lba || contains ebr_lba visited))
      invalid_argument
  sector ← fetch d ebr_lba 1
  guard (has_signature sector) invalid_argument
  p ← logical_partition base container_end ebr_lba (take 16 (drop 446 sector)) found.0
  let link = take 16 (drop 462 sector)
  link_blocks ← if is_extended (get_or link 4 0) then le32 link 12 else ok 0
  elim (link_blocks == 0) [
    | true ↦ ok (add_found p found)
    | false ↦ do
      next ← le32 link 8
      follow_links n d base container_end next (ebr_lba ∷ visited) (add_found p found)
  ]

unfoldable pub discover_ebr : BlockDevice → ℕ → ℕ → Found → Result Error Found
discover_ebr d base container_blocks found = do
  container_end ← end_within base container_blocks d.block_count
  follow_links max_ebr_links d base container_end 0 [] found

-- The loop of `discover_mbr` over the `n` entries from `index` on.
unfoldable pub mbr_entries : BlockDevice → List ℕ → ℕ → ℕ → Found → Result Error Found
mbr_entries d sector zero index found = ok found
mbr_entries d sector (suc n) index found = do
  let entry = take 16 (drop (446 + index * 16) sector)
  let kind = get_or entry 4 0
  first ← le32 entry 8
  blocks ← le32 entry 12
  found ←
      if kind == 0 || blocks == 0
      then ok found
      else if is_extended kind
      then discover_ebr d first blocks found
      else if kind == 0xee
      then ok found
      else ok
          (found.0, found.1 ++ (record { number = index + 1; first = first; blocks = blocks } ∷ []))
  mbr_entries d sector n (index + 1) found

unfoldable pub discover_mbr : BlockDevice → List ℕ → Result Error (List Partition)
discover_mbr d sector = do
  found ← mbr_entries d sector 4 0 (5, [])
  guard (not (is_empty found.1)) not_found
  validate_ranges found.1 d.block_count

-- Whether one of the four entries is a protective one.
unfoldable pub protective : List ℕ → Bool
protective sector =
    get_or sector 450 0 == 0xee
    || get_or sector 466 0 == 0xee
    || get_or sector 482 0 == 0xee
    || get_or sector 498 0 == 0xee

unfoldable pub discover : BlockDevice → Result Error (List Partition)
discover d = do
  guard (not (ltb d.logical_block_size 512)) invalid_argument
  sector ← fetch d 0 1
  guard (has_signature sector) not_found
  if protective sector then discover_gpt d else discover_mbr d sector
