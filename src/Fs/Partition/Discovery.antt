-- ===== src/Fs/Partition/Discovery.antt =====
-- What `discover` of kernel/src/fs/partition.rs finds, whatever the disk holds.
use roanix.Prelude.{
  ℕ, ◌≡◌, refl, not, List, [], subst, is_empty, ltb, if◌then◌else◌, Bool-cases, Result, ok, err,
  guard, ◌>>=◌, ◌>>◌, inl, inr,
}
use roanix.Fs.Partition.{Error, invalid_argument, not_found, Partition, validate_ranges}
use roanix.Fs.Partition.Ranges.{Each, InDisk, AllApart, validate_ranges_lem}
use roanix.Fs.Partition.Table.{
  BlockDevice, gpt_partitions, mbr_entries, fetch, has_signature, discover, discover_gpt,
  discover_mbr, protective, Found,
}

-- Every result of the computation has the property.
abbrev pub Ends : {A : Type 0} → (A → Type 0) → Result Error A → Type 0
Ends P (ok a) = P a
Ends P (err e) = Unit {0}

pub Ends-bind :
    {A B : Type 0} (P : B → Type 0) (m : Result Error A) (f : A → Result Error B)
    → ((a : A) → Ends P (f a))
    → Ends P (m >>= f)
Ends-bind P (ok a) f h = h a
Ends-bind P (err e) f h = tt

-- The same where what is bound has a property of its own.
pub Ends-bind_with :
    {A B : Type 0} (Q : A → Type 0) (P : B → Type 0) (m : Result Error A) (f : A → Result Error B)
    → Ends Q m
    → ((a : A) → Q a → Ends P (f a))
    → Ends P (m >>= f)
Ends-bind_with Q P (ok a) f q h = h a q
Ends-bind_with Q P (err e) f q h = tt

pub Ends-map :
    {A : Type 0} (Q P : A → Type 0) (m : Result Error A)
    → ((a : A) → Q a → P a)
    → Ends Q m
    → Ends P m
Ends-map Q P (ok a) h q = h a q
Ends-map Q P (err e) h q = tt

Sound : ℕ → List Partition → Type 0
Sound disk_blocks ps = Each (InDisk disk_blocks) ps × AllApart ps

Ends-validate :
    (ps : List Partition) (disk_blocks : ℕ)
    → Ends (Sound disk_blocks) (validate_ranges ps disk_blocks)
unfolding Sound
Ends-validate ps disk_blocks =
    elim (validate_ranges ps disk_blocks)
        as (λ r. validate_ranges ps disk_blocks ≡ r → Ends (Sound disk_blocks) r) [
          | ok qs ↦ λ e. validate_ranges_lem ps qs disk_blocks e
          | err x ↦ λ e. tt
        ]
      refl

Ends-gpt : (d : BlockDevice) → Ends (Sound d.block_count) (discover_gpt d)
unfolding discover_gpt
Ends-gpt d =
    Ends-bind {A = List Partition} (Sound d.block_count) (gpt_partitions d)
      (λ output. validate_ranges output d.block_count)
      (λ output. Ends-validate output d.block_count)

Ends-mbr : (d : BlockDevice) (sector : List ℕ) → Ends (Sound d.block_count) (discover_mbr d sector)
unfolding discover_mbr
Ends-mbr d sector =
    Ends-bind {A = Found} (Sound d.block_count) (mbr_entries d sector 4 0 (5, []))
      (λ found. do guard (not (is_empty found.1)) not_found; validate_ranges found.1 d.block_count)
      (λ found.
        Ends-bind {A = Unit {0}} (Sound d.block_count) (guard (not (is_empty found.1)) not_found)
          (λ _. validate_ranges found.1 d.block_count) (λ _. Ends-validate found.1 d.block_count))

Ends-discover : (d : BlockDevice) → Ends (Sound d.block_count) (discover d)
unfolding discover
Ends-discover d =
    Ends-bind {A = Unit {0}} (Sound d.block_count)
      (guard (not (ltb d.logical_block_size 512)) invalid_argument) _
      (λ _. Ends-bind {A = List ℕ} (Sound d.block_count) (fetch d 0 1) _ (λ sector.
        Ends-bind {A = Unit {0}} (Sound d.block_count) (guard (has_signature sector) not_found) _
          (λ _. by_kind sector)))
  where
    by_kind :
        (sector : List ℕ)
        → Ends
            (Sound d.block_count)
            (if protective sector then discover_gpt d else discover_mbr d sector)
    by_kind sector = elim (Bool-cases (protective sector)) [
      | inl e ↦ rw e (Ends-gpt d)
      | inr e ↦ rw e (Ends-mbr d sector)
    ]

-- Whatever the disk holds, the partitions that `discover` returns, from a GPT, from an MBR or from
-- a chain of extended boot records, are not empty, lie within the disk and off its first block, and
-- no two of them share a block.
pub discover-Sound :
    (d : BlockDevice) (ps : List Partition)
    → discover d ≡ ok ps
    → Each (InDisk d.block_count) ps × AllApart ps
unfolding Sound
discover-Sound d ps e = subst (Ends (Sound d.block_count)) e (Ends-discover d)
