-- ===== src/Mem/Phys/Frames.antt =====
-- kernel/src/mem/phys.rs: where every frame is, and that the counters tell it.
use roanix.Prelude.{
  ℕ, ◌+◌, ◌-◌, ◌≤◌, ◌<◌, ◌≡◌, inl, inr, refl, sym, subst, ◌∙◌, Bool, true, false, some, List, [],
  ◌∷◌, length, contains, ◌==◌, if◌then◌else◌, u64_mod, arith, Bool-cases, ==_iff,
}
use roanix.Mem.PhysSeg.{IsLaidOut}
use roanix.Mem.Phys.PageEntry.{PageState, Page, reserved, free, zeroed, allocated, is_free}
use roanix.Mem.Phys.Queues.{Pool}
use roanix.Mem.Phys.Totals.{one, IsCounted, sum, charge, total}
use roanix.Mem.Phys.Taking.{IsMoved, IsMoved-IsKnown}
use roanix.Mem.Phys.Taking.Popping.{unknown, IsKnown, Leaves, charge-same}
use roanix.Mem.Phys.{Phys, assign_at, fetch_add, fetch_sub, is_linked}

-- Weighs the occurrences of one frame.
abbrev pub at : ℕ → ℕ → ℕ
at p q = if q == p then 1 else 0

-- Whether a frame in this state waits among those of a kind, and whether it is given out.
abbrev pub waits : Bool → PageState → ℕ
waits true zeroed = 1
waits true free = 0
waits true reserved = 0
waits true allocated = 0
waits false free = 1
waits false zeroed = 0
waits false reserved = 0
waits false allocated = 0

abbrev pub given : PageState → ℕ
given allocated = 1
given free = 0
given zeroed = 0
given reserved = 0

-- The segments are laid out; every frame that is free stands once in the queues of its kind and
-- nowhere else, the allocated ones are those of `out`, a frame of the zero queues holds zeros, and
-- the counters count them: nfree those of the lists, the others all of a kind.
pub record IsPhys (s : Phys) (out : List ℕ) : Type 0 where
  pub laid : IsLaidOut 0 0 s.pool.segments
  pub listed : IsCounted s.pool.pmm
  pub known : IsKnown s.pool
  pub held : (p : ℕ) (z : Bool) → total (at p) z s.pool ≡ waits z (s.pages p).state
  pub out_given : (p : ℕ) → sum (at p) out ≡ given (s.pages p).state
  pub out_known : sum (unknown s.pool.segments) out ≡ 0
  pub cleared : (p : ℕ) → (s.pages p).state ≡ zeroed → s.clear p ≡ true
  pub free_counted : s.free_pages ≡ total one false s.pool + total one true s.pool
  pub zero_counted : s.zero_pages ≡ total one true s.pool
  pub used_counted : s.used_pages ≡ length out
  pub conserved : s.used_pages + s.free_pages ≡ s.total_pages
  pub bounded : s.total_pages < u64_mod

pub fetch_sub-one : (a : ℕ) → 1 ≤ a → fetch_sub a 1 ≡ a - 1
unfolding fetch_sub
fetch_sub-one a h = ground arith

pub fetch_add-small : (a b : ℕ) → a + b < u64_mod → fetch_add a b ≡ a + b
unfolding fetch_add
fetch_add-small a b h = omega (arith, h)

pub contains-at : (p : ℕ) (xs : List ℕ) → sum (at p) xs ≡ 0 → contains p xs ≡ false
contains-at p [] h = refl
contains-at p (x ∷ xs) h = ground (arith, contains-at p xs)

-- A frame that no queue holds is not linked.
pub unlinked : (s : Phys) (p : ℕ) → ((z : Bool) → total (at p) z s.pool ≡ 0) → is_linked s p ≡ false
unfolding is_linked
unlinked s p h =
    ground (arith, h true, h false, contains-at p s.pool.pmm.free, contains-at p s.pool.pmm.zeros)

-- A pool that holds the same frames serves as well.
pub IsMoved-IsPhys :
    (s : Phys) (q : Pool) (out : List ℕ)
    → IsMoved s.pool q
    → IsCounted q.pmm
    → IsPhys s out
    → IsPhys (record s { pool = q }) out
IsMoved-IsPhys s q out (same, moved) counted v = record {
  listed = counted;
  laid = subst (IsLaidOut 0 0) (sym same) v.laid;
  known = IsMoved-IsKnown s.pool q (same, moved) v.known;
  held = λ p z. moved (at p) z ∙ v.held p z;
  out_given = v.out_given;
  out_known = rw same v.out_known;
  cleared = v.cleared;
  free_counted = omega (arith, v.free_counted, moved one false, moved one true);
  zero_counted = omega (arith, v.zero_counted, moved one true);
  used_counted = v.used_counted;
  conserved = v.conserved;
  bounded = v.bounded;
}

waits-free : (z : Bool) (state : PageState) → 1 ≤ waits z state → is_free state ≡ true
waits-free z state h = ground arith

pub at-same : (p : ℕ) → at p p ≡ 1
at-same p = ground arith

waits-le : (z : Bool) (state : PageState) → waits z state ≤ 1
waits-le z state = ground arith

-- A frame of one kind is not of the other.
pub charge-waits :
    (p : ℕ) (kind z : Bool) (state : PageState)
    → waits kind state ≡ 1
    → charge (at p) p kind z ≡ waits z state
charge-waits p true true state h = at-same p ∙ sym h
charge-waits p true false state h = ground arith
charge-waits p false true state h = ground arith
charge-waits p false false state h = at-same p ∙ sym h

pub charge-other : (r p : ℕ) (kind z : Bool) → (r == p) ≡ false → charge (at r) p kind z ≡ 0
charge-other r p true true h = ground arith
charge-other r p true false h = refl
charge-other r p false true h = refl
charge-other r p false false h = ground arith

pub waits-allocated : (z : Bool) → waits z allocated ≡ 0
waits-allocated true = refl
waits-allocated false = refl

-- A frame that was taken waited once, and among one kind.
module _ (s : Phys) (q : Pool) (out : List ℕ) (p : ℕ) (was_zero : Bool) (v : IsPhys s out)
    (left : Leaves s.pool (some (p, was_zero), q)) where
  pub taken-waits : waits was_zero (s.pages p).state ≡ 1
  taken-waits = omega (
    arith,
    left.1 (at p) was_zero,
    charge-same (at p) p was_zero,
    at-same p,
    v.held p was_zero,
    waits-le was_zero (s.pages p).state,
  )

  pub taken-gone : (z : Bool) → total (at p) z q ≡ 0
  taken-gone z =
      omega (
        arith,
        left.1 (at p) z,
        v.held p z,
        charge-waits p was_zero z (s.pages p).state taken-waits,
      )

  -- The frame is not among the others.
  pub taken-others :
      (r : ℕ) (z : Bool) (page : Page)
      → page.state ≡ allocated
      → total (at r) z q ≡ waits z (assign_at s.pages p page r).state
  taken-others r z page e = elim (Bool-cases (r == p)) [
    | inl same ↦
        rw (same, e, waits-allocated z)
          (subst (λ (x : ℕ). total (at x) z q ≡ 0) (sym ((==_iff r p).0 same)) (taken-gone z))
    | inr other ↦
        rw other (omega (arith, left.1 (at r) z, v.held r z, charge-other r p was_zero z other))
  ]

  pub taken-out :
      (r : ℕ) (page : Page)
      → page.state ≡ allocated
      → sum (at r) (p ∷ out) ≡ given (assign_at s.pages p page r).state
  taken-out r page e = elim (Bool-cases (r == p)) [
    | inl same ↦ rw (same, e) (ground (arith, v.out_given p, v.out_given r, taken-waits))
    | inr other ↦ rw other (ground (arith, v.out_given r))
  ]
