-- ===== src/Fs/Partition/Ranges.antt =====
-- The ranges that `validate_ranges` of kernel/src/fs/partition.rs lets pass.
use roanix.Prelude.{ℕ, ◌+◌, ◌≤◌, ◌<◌, ◌≡◌, ◌⊎◌, inl, inr, List, [], ◌∷◌, leb, arith, Bool-cases, ok}
use roanix.Fs.Partition.{
  Partition, insert_by, sort_by, check_ranges, validate_ranges, PartitionBackend, map,
}

abbrev pub Each : (Partition → Type 0) → List Partition → Type 0
Each P [] = Unit {0}
Each P (p ∷ ps) = P p × Each P ps

-- No block belongs to both.
abbrev pub Apart : Partition → Partition → Type 0
Apart p q = (p.first + p.blocks ≤ q.first) ⊎ (q.first + q.blocks ≤ p.first)

abbrev pub AllApart : List Partition → Type 0
AllApart [] = Unit {0}
AllApart (p ∷ ps) = Each (Apart p) ps × AllApart ps

-- Not empty, not on the table's own block, and within the disk.
abbrev pub InDisk : ℕ → Partition → Type 0
InDisk disk_blocks p = (0 < p.blocks) × (0 < p.first) × (p.first + p.blocks ≤ disk_blocks)

Each-map :
    {P Q : Partition → Type 0}
    → ((p : Partition) → P p → Q p)
    → (ps : List Partition) → Each P ps
    → Each Q ps
Each-map f [] h = tt
Each-map f (p ∷ ps) (h, hs) = (f p h, Each-map f ps hs)

Each-insert :
    (P : Partition → Type 0) (key : Partition → ℕ) (p : Partition) (ps : List Partition)
    → P p
    → Each P ps
    → Each P (insert_by key p ps)
unfolding insert_by
Each-insert P key p [] h hs = (h, tt)
Each-insert P key p (q ∷ qs) h (k, ks) = elim (Bool-cases (leb (key p) (key q))) [
  | inl e ↦ rw e (h, (k, ks))
  | inr e ↦ rw e (k, Each-insert P key p qs h ks)
]

pub Each-sort :
    (P : Partition → Type 0) (key : Partition → ℕ) (ps : List Partition)
    → Each P ps
    → Each P (sort_by key ps)
unfolding sort_by
Each-sort P key [] h = tt
Each-sort P key (p ∷ ps) (h, hs) = Each-insert P key p (sort_by key ps) h (Each-sort P key ps hs)

flip : (p q : Partition) → Apart p q → Apart q p
flip p q (inl h) = inr h
flip p q (inr h) = inl h

AllApart-insert :
    (key : Partition → ℕ) (p : Partition) (ps : List Partition)
    → Each (Apart p) ps
    → AllApart ps
    → AllApart (insert_by key p ps)
unfolding insert_by
AllApart-insert key p [] h hs = (tt, tt)
AllApart-insert key p (q ∷ qs) (h, hs) (k, ks) = elim (Bool-cases (leb (key p) (key q))) [
  | inl e ↦ rw e ((h, hs), (k, ks))
  | inr e ↦ rw e (Each-insert (Apart q) key p qs (flip p q h) k, AllApart-insert key p qs hs ks)
]

pub AllApart-sort :
    (key : Partition → ℕ) (ps : List Partition) → AllApart ps → AllApart (sort_by key ps)
unfolding sort_by
AllApart-sort key [] h = tt
AllApart-sort key (p ∷ ps) (h, hs) =
    AllApart-insert key p (sort_by key ps) (Each-sort (Apart p) key ps h) (AllApart-sort key ps hs)

check-step :
    (disk_blocks previous_end : ℕ) (p : Partition) (ps : List Partition)
    → check_ranges disk_blocks previous_end (p ∷ ps) ≡ ok tt
    → InDisk disk_blocks p
      × (previous_end ≤ p.first)
      × (check_ranges disk_blocks (p.first + p.blocks) ps ≡ ok tt)
unfolding check_ranges
check-step disk_blocks previous_end p ps e = ground arith

check-apart :
    (disk_blocks previous_end : ℕ) (ps : List Partition)
    → check_ranges disk_blocks previous_end ps ≡ ok tt
    → Each (λ p. previous_end ≤ p.first) ps × Each (InDisk disk_blocks) ps × AllApart ps
check-apart disk_blocks previous_end [] e = (tt, tt, tt)
check-apart disk_blocks previous_end (p ∷ ps) e =
    let (inside, order, rest) = check-step disk_blocks previous_end p ps e in
    let (after, insides, apart) = check-apart disk_blocks (p.first + p.blocks) ps rest in
    (
      (order, Each-map (λ q h. omega arith) ps after),
      (inside, insides),
      (Each-map (λ q h. inl h) ps after, apart),
    )

validate_ranges-ok :
    (ps qs : List Partition) (disk_blocks : ℕ)
    → validate_ranges ps disk_blocks ≡ ok qs
    → (check_ranges disk_blocks 0 (sort_by (λ p. p.first) ps) ≡ ok tt)
      × (qs ≡ sort_by (λ p. p.number) (sort_by (λ p. p.first) ps))
unfolding validate_ranges
validate_ranges-ok ps qs disk_blocks e = ground arith

-- The partitions that `validate_ranges` lets pass are not empty, lie within the disk and off its
-- first block, and no two of them share a block.
pub validate_ranges_lem :
    (ps qs : List Partition) (disk_blocks : ℕ)
    → validate_ranges ps disk_blocks ≡ ok qs
    → Each (InDisk disk_blocks) qs × AllApart qs
validate_ranges_lem ps qs disk_blocks e =
    let (passed, sorted) = validate_ranges-ok ps qs disk_blocks e in
    let (_, inside, apart) = check-apart disk_blocks 0 (sort_by (λ p. p.first) ps) passed in
    rw sorted (
      Each-sort (InDisk disk_blocks) (λ p. p.number) (sort_by (λ p. p.first) ps) inside,
      AllApart-sort (λ p. p.number) (sort_by (λ p. p.first) ps) apart,
    )

abbrev backend : Partition → PartitionBackend
backend p = record { first = p.first; blocks = p.blocks }

map-ok :
    (p : Partition) (lba blocks x : ℕ)
    → map (backend p) lba blocks ≡ ok x
    → (x ≡ p.first + lba) × (lba + blocks ≤ p.blocks)
unfolding map
map-ok p lba blocks x e = ground arith

-- Requests through two partitions that share no block reach disjoint ranges of the disk, each
-- within its own partition.
pub map-Apart :
    (p q : Partition) (lba blocks x lba' blocks' y : ℕ)
    → Apart p q
    → map (backend p) lba blocks ≡ ok x
    → map (backend q) lba' blocks' ≡ ok y
    → (p.first ≤ x) × (x + blocks ≤ p.first + p.blocks) × ((x + blocks ≤ y) ⊎ (y + blocks' ≤ x))
map-Apart p q lba blocks x lba' blocks' y apart e f =
    let (at_p, in_p) = map-ok p lba blocks x e in
    let (at_q, in_q) = map-ok q lba' blocks' y f in
    (omega arith, omega arith, sides apart at_p in_p at_q in_q)
  where
    sides :
        Apart p q
        → x ≡ p.first + lba
        → lba + blocks ≤ p.blocks
        → y ≡ q.first + lba'
        → lba' + blocks' ≤ q.blocks
        → (x + blocks ≤ y) ⊎ (y + blocks' ≤ x)
    sides (inl h) a b c d = inl (omega arith)
    sides (inr h) a b c d = inr (omega arith)
