-- ===== src/Fs/Partition.antt =====
-- kernel/src/fs/partition.rs: partitions as ranges of a disk's blocks, and the bytes of the tables.
pub mod Table
pub mod Ranges
pub mod Discovery
pub mod Links
mod Tests
use Prim.Native.Nat.{bit_and, bit_xor}
use roanix.Prelude.{
  ℕ, zero, suc, ◌+◌, ◌-◌, ◌*◌, ◌/◌, ◌%◌, ◌^◌, Bool, true, false, not, ◌||◌, Option, none, some,
  List, [], ◌∷◌, length, take, drop, ltb, leb, ◌==◌, if◌then◌else◌, checked_add, Result, ok, err,
  ◌>>=◌, ◌>>◌, guard, ok_or,
}

-- The errors of kernel/src/driver/error.rs that this code returns, and any other error that the
-- disk below may return, by its number.
pub data Error : Type 0 where
  invalid_argument not_found io out_of_memory : Error
  other : ℕ → Error

pub record Partition : Type 0 where
  pub number : ℕ
  pub first : ℕ
  pub blocks : ℕ

-- The fields of `PartitionBackend` that its arithmetic reads.
pub record PartitionBackend : Type 0 where
  pub first : ℕ
  pub blocks : ℕ

unfoldable pub map : PartitionBackend → ℕ → ℕ → Result Error ℕ
map b lba blocks = do
  stop ← ok_or (checked_add lba blocks) invalid_argument
  guard (not (ltb b.blocks stop)) invalid_argument
  ok_or (checked_add b.first lba) invalid_argument

-- `read_blocks`, `write_blocks` and `discard` forward a request to the disk below, at the mapped
-- address.
unfoldable pub forward {ℓ} :
    {A : Type ℓ} → PartitionBackend → (ℕ → ℕ → Result Error A) → ℕ → ℕ → Result Error A
forward b parent lba blocks = do at_disk ← map b lba blocks; parent at_disk blocks

-- `slice::get(start..stop)`
unfoldable pub range : List ℕ → ℕ → ℕ → Option (List ℕ)
range bytes start stop =
    if leb stop (length bytes) then some (take (stop - start) (drop start bytes)) else none

-- `from_le_bytes`
unfoldable pub from_le_bytes : List ℕ → ℕ
from_le_bytes [] = 0
from_le_bytes (b ∷ bytes) = b + 256 * from_le_bytes bytes

unfoldable pub le32 : List ℕ → ℕ → Result Error ℕ
le32 bytes offset = do
  value ← ok_or (range bytes offset (offset + 4)) invalid_argument
  ok (from_le_bytes value)

unfoldable pub le64 : List ℕ → ℕ → Result Error ℕ
le64 bytes offset = do
  value ← ok_or (range bytes offset (offset + 8)) invalid_argument
  ok (from_le_bytes value)

-- The inner loop of `crc32`; `0u32.wrapping_sub(crc & 1)` is all ones or zero.
unfoldable pub crc_bits : ℕ → ℕ → ℕ
crc_bits zero crc = crc
crc_bits (suc n) crc = crc_bits n (bit_xor (crc / 2) (if crc % 2 == 1 then 0xedb88320 else 0))

unfoldable pub crc_bytes : List ℕ → ℕ → ℕ
crc_bytes [] crc = crc
crc_bytes (b ∷ bytes) crc = crc_bytes bytes (crc_bits 8 (bit_xor crc b))

unfoldable pub crc32 : List ℕ → ℕ
crc32 bytes = 2 ^ 32 - 1 - crc_bytes bytes (2 ^ 32 - 1)

unfoldable pub is_extended : ℕ → Bool
is_extended kind = kind == 0x05 || kind == 0x0f || kind == 0x85

-- `sort_unstable_by_key`: which of two equal keys comes first does not matter here.
unfoldable pub insert_by : (Partition → ℕ) → Partition → List Partition → List Partition
insert_by key p [] = p ∷ []
insert_by key p (q ∷ qs) = if leb (key p) (key q) then p ∷ q ∷ qs else q ∷ insert_by key p qs

unfoldable pub sort_by : (Partition → ℕ) → List Partition → List Partition
sort_by key [] = []
sort_by key (p ∷ ps) = insert_by key p (sort_by key ps)

-- The loop of `validate_ranges`.
unfoldable pub check_ranges : ℕ → ℕ → List Partition → Result Error (Unit {0})
check_ranges disk_blocks previous_end [] = ok tt
check_ranges disk_blocks previous_end (p ∷ ps) = do
  stop ← ok_or (checked_add p.first p.blocks) invalid_argument
  guard
      (not (
        p.blocks == 0
        || p.first == 0
        || leb disk_blocks p.first
        || ltb disk_blocks stop
        || ltb p.first previous_end))
      invalid_argument
  check_ranges disk_blocks stop ps

unfoldable pub validate_ranges : List Partition → ℕ → Result Error (List Partition)
validate_ranges partitions disk_blocks = do
  check_ranges disk_blocks 0 (sort_by (λ p. p.first) partitions)
  ok (sort_by (λ p. p.number) (sort_by (λ p. p.first) partitions))
