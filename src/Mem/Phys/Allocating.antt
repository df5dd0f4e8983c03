-- ===== src/Mem/Phys/Allocating.antt =====
-- kernel/src/mem/phys.rs: what alloc_page gives out.
use roanix.Prelude.{
  ℕ, suc, ◌+◌, ◌-◌, ◌≤◌, ◌<◌, ◌≡◌, inl, inr, refl, sym, subst, ◌∙◌, Bool, true, false, not, ◌&&◌,
  ◌||◌, Option, none, some, List, ◌∷◌, length, ◌==◌, if◌then◌else◌, arith, Bool-cases, ==_refl,
  lt→ltb,
}
use roanix.Mem.PhysSeg.{IsLaidOut}
use roanix.Mem.Reserve.{Access, access}
use roanix.Mem.Phys.PageEntry.{
  PageState, PageUse, Page, unowned, no_flags, zeroed, allocated, is_dynamic, allocate, is_free,
}
use roanix.Mem.Phys.Queues.{Pool, Entry, take_page}
use roanix.Mem.Phys.Totals.{sum, charge, total}
use roanix.Mem.Phys.Taking.{take_page-Leaves, Leaves-IsKnown}
use roanix.Mem.Phys.Taking.Popping.{unknown, Leaves, charge-same}
use roanix.Mem.Phys.Frames.{
  waits, IsPhys, fetch_sub-one, fetch_add-small, unlinked, IsMoved-IsPhys, taken-waits, taken-gone,
  taken-others, taken-out,
}
use roanix.Mem.Phys.Totals.{one, charge-one, IsCounted}
use roanix.Mem.Phys.Counting.{take_page-IsCounted}
use roanix.Mem.Phys.{
  Phys, Caller, assign_at, fetch_sub, prepare_allocation, zero_page, count_taken, hand_out,
  alloc_page,
}

-- The entry of a frame that was just given out.
abbrev pub fresh : PageUse → Page
fresh usage = record {
  state = allocated;
  usage = usage;
  owner_kind = unowned;
  flags = no_flags;
  wire_count = 0;
  loan_count = 0;
  map_count = 0;
}

-- A frame that was free is given out, with zeros in it if they are wanted, and no other frame
-- changes.
pub record IsHandedOut (usage : PageUse) (want_zero : Bool) (s : Phys) (out : List ℕ) (p : ℕ)
    (s' : Phys) : Type 0 where
  pub valid : IsPhys s' (p ∷ out)
  pub was_free : is_free (s.pages p).state ≡ true
  pub is_fresh : s'.pages ≡ assign_at s.pages p (fresh usage)
  pub holds_zeros : want_zero ≡ true → s'.clear p ≡ true
  pub untouched : (r : ℕ) → (r == p) ≡ false → s'.clear r ≡ s.clear r

abbrev pub Answers : PageUse → Bool → Phys → List ℕ → Option ℕ × Phys → Type 0
Answers usage want_zero s out (none, s') =
    IsPhys s' out × (s'.pages ≡ s.pages) × (s'.clear ≡ s.clear)
Answers usage want_zero s out (some p, s') = IsHandedOut usage want_zero s out p s'

zeros_left :
    (p : ℕ) (was_zero : Bool) {count left : ℕ}
    → count ≡ charge one p was_zero true + left
    → (if was_zero then fetch_sub count 1 else count) ≡ left
zeros_left p true {count} h = fetch_sub-one count (omega arith) ∙ omega (arith, h)
zeros_left p false h = omega (arith, h)

free_of_waits : (z : Bool) (state : PageState) → waits z state ≡ 1 → is_free state ≡ true
free_of_waits z state h = ground arith

zeroed_of_waits : (z : Bool) (state : PageState) → waits z state ≡ 1 → z ≡ true → state ≡ zeroed
zeroed_of_waits z state h e = ground arith

pub allocate-fresh :
    (usage : PageUse) (page : Page)
    → is_free page.state ≡ true
    → allocate usage page ≡ some (fresh usage)
unfolding allocate
allocate-fresh usage page h = rw h refl

module _ (usage : PageUse) (want_zero : Bool) (s : Phys) (q : Pool) (out : List ℕ) (p : ℕ)
    (was_zero : Bool) (v : IsPhys s out) (left : Leaves s.pool (some (p, was_zero), q))
    (counted : IsCounted q.pmm) where
  abbrev result : Phys
  result = record (count_taken s q was_zero) {
    pages = assign_at s.pages p (fresh usage);
    clear = if want_zero && not was_zero then assign_at s.clear p true else s.clear;
  }

  hand_out-result : hand_out usage want_zero s (some (p, was_zero), q) ≡ some (some p, result)
  unfolding hand_out prepare_allocation zero_page count_taken
  hand_out-result =
      rw
        (
          unlinked (count_taken s q was_zero) p (taken-gone s q out p was_zero v left),
          hand_out,
          prepare_allocation,
          allocate-fresh usage (s.pages p)
              (free_of_waits was_zero (s.pages p).state (taken-waits s q out p was_zero v left)),
        )
        (ground arith)

  frees :
      total one false s.pool + total one true s.pool ≡ suc (total one false q + total one true q)
  frees = omega (arith, left.1 one false, left.1 one true, charge-one p was_zero)

  free_left : 1 ≤ s.free_pages
  free_left = omega (arith, frees, v.free_counted)

  zeros : result.zero_pages ≡ total one true q
  unfolding count_taken
  zeros = zeros_left p was_zero (v.zero_counted ∙ left.1 one true)

  used : result.used_pages ≡ s.used_pages + 1
  unfolding count_taken
  used = fetch_add-small s.used_pages 1 (omega (arith, v.conserved, v.bounded, free_left))

  freed : result.free_pages ≡ s.free_pages - 1
  unfolding count_taken
  freed = fetch_sub-one s.free_pages free_left

  result-IsPhys : IsPhys result (p ∷ out)
  unfolding count_taken
  result-IsPhys = record {
    laid = subst (IsLaidOut 0 0) (sym left.0) v.laid;
    listed = counted;
    known = Leaves-IsKnown s.pool q (p, was_zero) v.known left;
    held = λ r z. taken-others s q out p was_zero v left r z (fresh usage) refl;
    out_given = λ r. taken-out s q out p was_zero v left r (fresh usage) refl;
    out_known =
        subst (λ segments. sum (unknown segments) (p ∷ out) ≡ 0) (sym left.0)
          (omega (
            arith,
            v.out_known,
            v.known was_zero,
            left.1 (unknown s.pool.segments) was_zero,
            charge-same (unknown s.pool.segments) p was_zero,
          ));
    cleared = λ r e. ground (arith, v.cleared r);
    free_counted = freed ∙ omega (arith, frees, v.free_counted);
    zero_counted = zeros;
    used_counted = used ∙ omega (arith, v.used_counted);
    conserved = rw (used, freed) (omega (arith, v.conserved, free_left));
    bounded = v.bounded;
  }

  -- The frame of the answer is out, with its entry fresh.
  hand_out-IsHandedOut :
      (a : Option ℕ × Phys) × (hand_out usage want_zero s (some (p, was_zero), q) ≡ some a)
      × Answers usage want_zero s out a
  hand_out-IsHandedOut = (
    (some p, result),
    hand_out-result,
    record {
      valid = result-IsPhys;
      was_free = free_of_waits was_zero (s.pages p).state (taken-waits s q out p was_zero v left);
      is_fresh = refl;
      holds_zeros = λ e. ground (
        arith,
        v.cleared p,
        ==_refl p,
        zeroed_of_waits was_zero (s.pages p).state (taken-waits s q out p was_zero v left),
      );
      untouched = λ r e. ground arith;
    },
  )

hand_out-Answers :
    (usage : PageUse) (want_zero : Bool) (s : Phys) (out : List ℕ) (r : Option Entry × Pool)
    → IsPhys s out
    → Leaves s.pool r
    → IsCounted r.1.pmm
    → (a : Option ℕ × Phys) × (hand_out usage want_zero s r ≡ some a)
      × Answers usage want_zero s out a
unfolding hand_out
hand_out-Answers usage want_zero s out (none, q) v left counted =
    ((none, record s { pool = q }), refl, (IsMoved-IsPhys s q out left counted v, refl, refl))
hand_out-Answers usage want_zero s out (some (p, was_zero), q) v left counted =
    hand_out-IsHandedOut usage want_zero s q out p was_zero v left counted

-- What the reserves allow the caller.
abbrev pub allowance : Caller → Bool → ℕ → Access
allowance caller use_reserve nfree =
    access nfree caller.cpus (use_reserve || caller.kernel_thread) caller.daemon

pub alloc_page-ready :
    (caller : Caller) (usage : PageUse) (want_zero use_reserve : Bool) (s : Phys)
    → s.ready ≡ true
    → is_dynamic usage ≡ true
    → caller.cpu < length s.pool.caches
    → alloc_page caller usage want_zero use_reserve s
      ≡ hand_out usage want_zero s
          (take_page want_zero (allowance caller use_reserve) caller.cpu s.pool)
unfolding alloc_page
alloc_page-ready caller usage want_zero use_reserve s ready dynamic cpu =
    simp (ready, dynamic, lt→ltb caller.cpu (length s.pool.caches) cpu)

alloc_page-early :
    (caller : Caller) (usage : PageUse) (want_zero use_reserve : Bool) (s : Phys)
    → s.ready ≡ false
    → alloc_page caller usage want_zero use_reserve s ≡ some (none, s)
unfolding alloc_page
alloc_page-early caller usage want_zero use_reserve s early = simp (early)

-- Where every frame is in its place, alloc_page fails no assertion for a use that it gives out and a
-- CPU with a cache. It answers with a frame that was free, whose entry it starts afresh and which
-- holds zeros if they are wanted, or with none; either way every frame is in its place again.
pub alloc_page-Answers :
    (caller : Caller) (usage : PageUse) (want_zero use_reserve : Bool) (s : Phys) (out : List ℕ)
    → IsPhys s out
    → is_dynamic usage ≡ true
    → caller.cpu < length s.pool.caches
    → (a : Option ℕ × Phys) × (alloc_page caller usage want_zero use_reserve s ≡ some a)
      × Answers usage want_zero s out a
alloc_page-Answers caller usage want_zero use_reserve s out v dynamic cpu =
    elim (Bool-cases s.ready) [
      | inl ready ↦
          let (a, e, answers) =
            hand_out-Answers usage want_zero s out
              (take_page want_zero (allowance caller use_reserve) caller.cpu s.pool) v
              (take_page-Leaves want_zero (allowance caller use_reserve) caller.cpu s.pool v.known)
              (take_page-IsCounted want_zero (allowance caller use_reserve) caller.cpu s.pool
                v.listed) in
          (a, alloc_page-ready caller usage want_zero use_reserve s ready dynamic cpu ∙ e, answers)
      | inr early ↦
          ((none, s), alloc_page-early caller usage want_zero use_reserve s early, (v, refl, refl))
    ]
