-- ===== src/Fs/Partition/Links.antt =====
-- The chain of extended boot records of kernel/src/fs/partition.rs, and where it may lead.
use roanix.Prelude.{
  ℕ, zero, suc, ◌+◌, ◌≤◌, ◌<◌, ◌≡◌, sym, ◌∙◌, subst, ◌||◌, Bool, true, false, not, Option, none,
  some, List, [], ◌∷◌, ◌++◌, append-nil, append_assoc, length, take, drop, get_or, contains, ltb,
  leb, ◌==◌, if◌then◌else◌, checked_add, arith, ok, ok_or, guard, ◌>>=◌,
}
use roanix.Fs.Partition.{invalid_argument, Partition, le32, is_extended}
use roanix.Fs.Partition.Ranges.{Each}
use roanix.Fs.Partition.Discovery.{Ends, Ends-bind, Ends-bind_with, Ends-map}
use roanix.Fs.Partition.Table.{
  BlockDevice, fetch, has_signature, Found, add_found, logical_partition, end_within, follow_links,
  discover_ebr,
}

-- A logical partition of a container with its number.
abbrev pub InContainer : ℕ → ℕ → Partition → Type 0
InContainer base stop p = (base ≤ p.first) × (p.first + p.blocks ≤ stop) × (0 < p.blocks)

-- Partitions numbered one after the other.
abbrev pub Numbered : ℕ → List Partition → Type 0
Numbered n [] = Unit {0}
Numbered n (p ∷ ps) = (p.number ≡ n) × Numbered (n + 1) ps

-- `after` adds to `before` at most `bound` logical partitions of the container.
pub record Extends (base stop bound : ℕ) (before after : Found) : Type 0 where
  pub new : List Partition
  pub kept : after.1 ≡ before.1 ++ new
  pub count : after.0 ≡ before.0 + length new
  pub bounded : length new ≤ bound
  pub inside : Each (InContainer base stop) new
  pub numbered : Numbered before.0 new

IsLogical : ℕ → ℕ → ℕ → Option Partition → Type 0
IsLogical base stop number none = Unit {0}
IsLogical base stop number (some p) = InContainer base stop p × (p.number ≡ number)

Ends-IsLogical :
    (base stop ebr_lba : ℕ) (logical : List ℕ) (number : ℕ)
    → Ends (IsLogical base stop number) (logical_partition base stop ebr_lba logical number)
unfolding logical_partition IsLogical end_within
Ends-IsLogical base stop ebr_lba logical number = ground arith

Extends-none : (base stop bound : ℕ) (found : Found) → Extends base stop bound found found
Extends-none base stop bound found = record {
  new = [];
  kept = sym (append-nil found.1);
  count = omega arith;
  bounded = omega arith;
  inside = tt;
  numbered = tt;
}

-- One link more, before the rest of the chain.
Extends-add :
    (base stop bound : ℕ) (p : Option Partition) (before after : Found)
    → IsLogical base stop before.0 p
    → Extends base stop bound (add_found p before) after
    → Extends base stop (suc bound) before after
unfolding add_found IsLogical
Extends-add base stop bound none before after h e = record {
  new = e.new;
  kept = e.kept;
  count = e.count;
  bounded = omega (arith, e.bounded);
  inside = e.inside;
  numbered = e.numbered;
}
Extends-add base stop bound (some p) before after (h, n) e = record {
  new = p ∷ e.new;
  kept = e.kept ∙ append_assoc before.1 (p ∷ []) e.new;
  count = omega (arith, e.count);
  bounded = omega (arith, e.bounded);
  inside = (h, e.inside);
  numbered = (n, e.numbered);
}

Ends-follow :
    (n : ℕ) (d : BlockDevice) (base stop relative : ℕ) (visited : List ℕ) (found : Found)
    → Ends (Extends base stop n found) (follow_links n d base stop relative visited found)
unfolding follow_links
Ends-follow zero d base stop relative visited found = tt
Ends-follow (suc n) d base stop relative visited found =
    Ends-bind {A = ℕ} P (ok_or (checked_add base relative) invalid_argument) _ (λ ebr_lba.
      Ends-bind {A = Unit {0}} P
        (guard (not (ltb ebr_lba base || leb stop ebr_lba || contains ebr_lba visited))
          invalid_argument)
        _
        (λ _. Ends-bind {A = List ℕ} P (fetch d ebr_lba 1) _ (λ sector.
          Ends-bind {A = Unit {0}} P (guard (has_signature sector) invalid_argument) _ (λ _.
            Ends-bind_with {A = Option Partition} (IsLogical base stop found.0) P
              (logical_partition base stop ebr_lba (take 16 (drop 446 sector)) found.0) _
              (Ends-IsLogical base stop ebr_lba (take 16 (drop 446 sector)) found.0)
              (λ p logical.
                Ends-bind {A = ℕ} P
                  (if is_extended (get_or (take 16 (drop 462 sector)) 4 0)
                    then le32 (take 16 (drop 462 sector)) 12
                    else ok 0)
                  _
                  (λ link_blocks.
                    next_link (λ next seen now_found. Ends-follow n d base stop next seen now_found)
                      ebr_lba sector p logical (link_blocks == 0)))))))
  where
    P : Found → Type 0
    P = Extends base stop (suc n) found

    next_link :
        ((next : ℕ) (seen : List ℕ) (now_found : Found)
          → Ends (Extends base stop n now_found) (follow_links n d base stop next seen now_found))
        → (ebr_lba : ℕ) (sector : List ℕ) (p : Option Partition) → IsLogical base stop found.0 p
        → (last : Bool)
        → Ends P (elim last [
          | true ↦ ok (add_found p found)
          | false ↦ do
            next ← le32 (take 16 (drop 462 sector)) 8
            follow_links n d base stop next (ebr_lba ∷ visited) (add_found p found)
        ])
    next_link rest ebr_lba sector p logical true =
        Extends-add base stop n p found (add_found p found) logical
          (Extends-none base stop n (add_found p found))
    next_link rest ebr_lba sector p logical false =
        Ends-bind {A = ℕ} P (le32 (take 16 (drop 462 sector)) 8) _ (λ next.
          Ends-map (Extends base stop n (add_found p found)) P
            (follow_links n d base stop next (ebr_lba ∷ visited) (add_found p found))
            (λ after e. Extends-add base stop n p found after logical e)
            (rest next (ebr_lba ∷ visited) (add_found p found)))

Ends-within :
    (first blocks bound : ℕ)
    → Ends (λ stop. (stop ≡ first + blocks) × (stop ≤ bound)) (end_within first blocks bound)
unfolding end_within
Ends-within first blocks bound = ground arith

Ends-ebr :
    (d : BlockDevice) (base blocks : ℕ) (found : Found)
    → Ends
        (λ after. (base + blocks ≤ d.block_count) × Extends base (base + blocks) 128 found after)
        (discover_ebr d base blocks found)
unfolding discover_ebr
Ends-ebr d base blocks found =
    Ends-bind_with {A = ℕ} (λ stop. (stop ≡ base + blocks) × (stop ≤ d.block_count)) _
      (end_within base blocks d.block_count) _ (Ends-within base blocks d.block_count)
      (λ stop s.
        Ends-map (Extends base stop 128 found) _ (follow_links 128 d base stop 0 [] found)
          (λ after e. (omega (arith, s.0, s.1), subst (λ b. Extends base b 128 found after) s.0 e))
          (Ends-follow 128 d base stop 0 [] found))

-- Whatever the boot records of an extended partition hold, loops among them included,
-- `discover_ebr` keeps the partitions found before and adds at most 128 behind them, each not empty
-- and within the extended partition, numbered in sequence from the next free number.
pub discover_ebr-Extends :
    (d : BlockDevice) (base blocks : ℕ) (found after : Found)
    → discover_ebr d base blocks found ≡ ok after
    → (base + blocks ≤ d.block_count) × Extends base (base + blocks) 128 found after
discover_ebr-Extends d base blocks found after e =
    subst (Ends (λ x. (base + blocks ≤ d.block_count) × Extends base (base + blocks) 128 found x)) e
      (Ends-ebr d base blocks found)
