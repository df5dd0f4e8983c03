-- ===== src/Mem/Phys/Releasing/Entries.antt =====
-- kernel/src/mem/phys.rs: the entry of a frame that is given back.
use roanix.Prelude.{
  ℕ, suc, ◌+◌, ◌<◌, ◌≡◌, inl, inr, refl, ap, ◌∙◌, Bool, true, false, some, List, [], ◌∷◌, length,
  ◌==◌, if◌then◌else◌, u64_mod, arith, Bool-cases, ==_iff,
}
use roanix.Mem.Phys.PageEntry.{
  PageState, Page, unused, unowned, no_flags, free, zeroed, allocated, release,
}
use roanix.Mem.Phys.Queues.{erase}
use roanix.Mem.Phys.Totals.{sum, charge}
use roanix.Mem.Phys.Frames.{at, waits, given, fetch_add-small, at-same}
use roanix.Mem.Phys.Totals.{one}
use roanix.Mem.Phys.{fetch_add}

pub sum-erase :
    (f : ℕ → ℕ) (p : ℕ) (qs : List ℕ) → sum (at p) qs ≡ 1 → sum f qs ≡ f p + sum f (erase p qs)
sum-erase f p [] h = absurd (omega arith)
sum-erase f p (q ∷ qs) h = elim (Bool-cases (q == p)) [
  | inl same ↦ rw (same, erase) (ap (λ (x : ℕ). f x + sum f qs) ((==_iff q p).0 same))
  | inr other ↦ rw (other, erase) (omega (arith, sum-erase f p qs (ground arith)))
]

pub length-erase : (p : ℕ) (qs : List ℕ) → sum (at p) qs ≡ 1 → length qs ≡ suc (length (erase p qs))
length-erase p [] h = absurd (omega arith)
length-erase p (q ∷ qs) h = ground (arith, length-erase p qs)

-- Nobody owns, wires, lends or maps the frame.
pub record IsReleasable (page : Page) : Type 0 where
  pub is_out : page.state ≡ allocated
  pub not_owned : page.owner_kind ≡ unowned
  pub not_wired : page.wire_count ≡ 0
  pub not_lent : page.loan_count ≡ 0
  pub not_mapped : page.map_count ≡ 0

abbrev state_of : Bool → PageState
state_of z = if z then zeroed else free

-- The entry of a frame that was just given back.
abbrev pub released : Bool → Page → Page
released zero_filled page = record page {
  state = state_of zero_filled;
  usage = unused;
  owner_kind = unowned;
  flags = no_flags;
}

pub release-released :
    (zero_filled : Bool) (page : Page)
    → IsReleasable page
    → release zero_filled page ≡ some (released zero_filled page)
unfolding release
release-released zero_filled page r = ground arith

pub charge-released : (p : ℕ) (kind z : Bool) → charge (at p) p kind z ≡ waits z (state_of kind)
charge-released p true true = at-same p
charge-released p true false = refl
charge-released p false true = refl
charge-released p false false = at-same p

pub at-other : (x p : ℕ) → (x == p) ≡ false → at x p ≡ 0
at-other x p h = ground arith

pub kind_of_zeroed : (kind : Bool) → state_of kind ≡ zeroed → kind ≡ true
kind_of_zeroed true h = refl
kind_of_zeroed false h = cc

pub given-released : (kind : Bool) → given (state_of kind) ≡ 0
given-released true = refl
given-released false = refl

pub charge-known : (f : ℕ → ℕ) (p : ℕ) (z y : Bool) → f p ≡ 0 → charge f p z y ≡ 0
charge-known f p true true h = h
charge-known f p true false h = refl
charge-known f p false true h = refl
charge-known f p false false h = h

pub zeros_more :
    (p : ℕ) (kind : Bool) (count : ℕ) {after : ℕ}
    → count + 1 < u64_mod
    → after ≡ charge one p kind true + count
    → (if kind then fetch_add count 1 else count) ≡ after
zeros_more p true count h e = fetch_add-small count 1 h ∙ omega (arith, e)
zeros_more p false count h e = omega (arith, e)
