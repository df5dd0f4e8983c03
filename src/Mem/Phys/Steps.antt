-- ===== src/Mem/Phys/Steps.antt =====
-- kernel/src/mem/phys.rs: any sequence of calls of the allocator, and of uses of the frames it gave out.
use roanix.Prelude.{
  ℕ, ◌<◌, ◌≡◌, inl, inr, refl, sym, subst, ap, ◌∙◌, Bool, true, Option, none, some, List, length,
  get_elem?, max, ◌==◌, arith, Bool-cases, ==_iff,
}
use roanix.Mem.Phys.PageEntry.{PageUse, Page, zeroed, allocated, is_dynamic}
use roanix.Mem.Phys.Queues.{PageCache, erase}
use roanix.Mem.Phys.Frames.{IsPhys, waits, given}
use roanix.Mem.Phys.Allocating.{Answers, alloc_page-Answers}
use roanix.Mem.Phys.Releasing.{free_page-IsPhys}
use roanix.Mem.Phys.Releasing.Entries.{IsReleasable}
use roanix.Mem.Phys.Zeroing.{zero_free_pages-IsZeroing}
use roanix.Mem.Phys.Contiguous.{alloc_contiguous}
use roanix.Mem.Phys.Contiguous.Finding.{IsContiguous, alloc_contiguous-IsContiguous}
use roanix.Mem.Phys.{Phys, Caller, assign_at, alloc_page, free_page, zero_free_pages}

-- One call of the allocator, or one use of a frame that is out: its owner changes its entry but for
-- the state, or writes to its memory. A frame is given back as free_page demands, and only cleared
-- frames to free_zeroed_page.
pub data Step : Phys → Phys → Type 0 where
  allocates :
      (caller : Caller) (usage : PageUse) (want_zero use_reserve : Bool) (s s' : Phys)
      (o : Option ℕ)
      → is_dynamic usage ≡ true
      → caller.cpu < length s.pool.caches
      → alloc_page caller usage want_zero use_reserve s ≡ some (o, s')
      → Step s s'
  allocates_run :
      (caller : Caller) (usage : PageUse) (count align_pages max_address : ℕ) (s s' : Phys)
      (o : Option ℕ)
      → is_dynamic usage ≡ true
      → alloc_contiguous caller usage count align_pages max_address s ≡ some (o, s')
      → Step s s'
  frees :
      (caller : Caller) (p : ℕ) (zero_filled : Bool) (s s' : Phys) (c : PageCache)
      → IsReleasable (s.pages p)
      → (zero_filled ≡ true → s.clear p ≡ true)
      → get_elem? s.pool.caches caller.cpu ≡ some c
      → free_page caller p zero_filled s ≡ some s'
      → Step s s'
  zeroes : (maximum : ℕ) (s : Phys) → Step s (zero_free_pages maximum s).1
  uses :
      (p : ℕ) (page : Page) (s : Phys)
      → (s.pages p).state ≡ allocated
      → page.state ≡ allocated
      → Step s (record s { pages = assign_at s.pages p page })
  writes :
      (p : ℕ) (clear : Bool) (s : Phys)
      → (s.pages p).state ≡ allocated
      → Step s (record s { clear = assign_at s.clear p clear })

pub data Steps : Phys → Phys → Type 0 where
  here : (s : Phys) → Steps s s
  then_step : (s t u : Phys) → Steps s t → Step t u → Steps s u

-- The frames that are out, with every frame in its place.
abbrev pub InPlace : Phys → Type 0
InPlace s = (out : List ℕ) × IsPhys s out

same-state :
    (s : Phys) (p x : ℕ) (page : Page)
    → (s.pages p).state ≡ allocated
    → page.state ≡ allocated
    → (assign_at s.pages p page x).state ≡ (s.pages x).state
same-state s p x page e f = elim (Bool-cases (x == p)) [
  | inl same ↦
      rw (same, assign_at)
        (f ∙ sym e ∙ ap (λ (y : ℕ). (s.pages y).state) (sym ((==_iff x p).0 same)))
  | inr other ↦ rw (other, assign_at) refl
]

uses-IsPhys :
    (s : Phys) (p : ℕ) (page : Page) (out : List ℕ)
    → (s.pages p).state ≡ allocated
    → page.state ≡ allocated
    → IsPhys s out
    → IsPhys (record s { pages = assign_at s.pages p page }) out
uses-IsPhys s p page out e f v = record {
  laid = v.laid;
  listed = v.listed;
  known = v.known;
  held = λ x z. v.held x z ∙ ap (waits z) (sym (same-state s p x page e f));
  out_given = λ x. v.out_given x ∙ ap given (sym (same-state s p x page e f));
  out_known = v.out_known;
  cleared = λ x h. v.cleared x (sym (same-state s p x page e f) ∙ h);
  free_counted = v.free_counted;
  zero_counted = v.zero_counted;
  used_counted = v.used_counted;
  conserved = v.conserved;
  bounded = v.bounded;
}

still-clear :
    (s : Phys) (p : ℕ) (clear : Bool) (x : ℕ)
    → (s.pages p).state ≡ allocated
    → (s.pages x).state ≡ zeroed
    → s.clear x ≡ true
    → assign_at s.clear p clear x ≡ true
still-clear s p clear x e h c = elim (Bool-cases (x == p)) [
  | inl same ↦ absurd (ground (arith, ap (λ (y : ℕ). (s.pages y).state) ((==_iff x p).0 same)))
  | inr other ↦ rw (other, assign_at) c
]

writes-IsPhys :
    (s : Phys) (p : ℕ) (clear : Bool) (out : List ℕ)
    → (s.pages p).state ≡ allocated
    → IsPhys s out
    → IsPhys (record s { clear = assign_at s.clear p clear }) out
writes-IsPhys s p clear out e v = record {
  laid = v.laid;
  listed = v.listed;
  known = v.known;
  held = v.held;
  out_given = v.out_given;
  out_known = v.out_known;
  cleared = λ x h. still-clear s p clear x e h (v.cleared x h);
  free_counted = v.free_counted;
  zero_counted = v.zero_counted;
  used_counted = v.used_counted;
  conserved = v.conserved;
  bounded = v.bounded;
}

Answers-InPlace :
    (usage : PageUse) (want_zero : Bool) (s : Phys) (out : List ℕ) (o : Option ℕ) (s' : Phys)
    → Answers usage want_zero s out (o, s')
    → InPlace s'
Answers-InPlace usage want_zero s out none s' h = (out, h.0)
Answers-InPlace usage want_zero s out (some p) s' h = (_, h.valid)

IsContiguous-InPlace :
    (caller : Caller) (usage : PageUse) (count align max_address : ℕ) (s : Phys) (out : List ℕ)
    (o : Option ℕ) (s' : Phys)
    → IsContiguous caller usage count align max_address s out (o, s')
    → InPlace s'
IsContiguous-InPlace caller usage count align max_address s out none s' h = (out, h.valid)
IsContiguous-InPlace caller usage count align max_address s out (some p) s' h = (_, h.valid)

some-injective {ℓ} : {A : Type ℓ} {a b : A} → some a ≡ some b → a ≡ b
some-injective e = cc

Step-InPlace : {s t : Phys} → Step s t → InPlace s → InPlace t
Step-InPlace (allocates caller usage want_zero use_reserve s s' o dynamic cpu e) (out, v) =
    let (a, e', h) = alloc_page-Answers caller usage want_zero use_reserve s out v dynamic cpu in
    Answers-InPlace usage want_zero s out o s'
      (subst (Answers usage want_zero s out) (some-injective (sym e' ∙ e)) h)
Step-InPlace (allocates_run caller usage count align_pages max_address s s' o dynamic e) (out, v) =
    let (a, e', h) =
      alloc_contiguous-IsContiguous caller usage count align_pages max_address s out v dynamic in
    IsContiguous-InPlace caller usage count (max align_pages 1) max_address s out o s' (
      subst (IsContiguous caller usage count (max align_pages 1) max_address s out)
        (some-injective (sym e' ∙ e)) h)
Step-InPlace (frees caller p zero_filled s s' c r holds at_cpu e) (out, v) =
    let (t, e', w) = free_page-IsPhys caller p zero_filled s out v r holds at_cpu in
    (erase p out, subst (λ x. IsPhys x (erase p out)) (some-injective (sym e' ∙ e)) w)
Step-InPlace (zeroes maximum s) (out, v) = (out, (zero_free_pages-IsZeroing maximum s out v).valid)
Step-InPlace (uses p page s e f) (out, v) = (out, uses-IsPhys s p page out e f v)
Step-InPlace (writes p clear s e) (out, v) = (out, writes-IsPhys s p clear out e v)

-- From a state with every frame in its place, any calls of the allocator and any uses of the frames
-- that it gave out lead to such a state: a frame is out or waits in one queue, once, a frame in a
-- queue of zero pages holds zeros, and the counters are the numbers of frames.
pub Steps-InPlace : {s t : Phys} → Steps s t → InPlace s → InPlace t
Steps-InPlace (here s) v = v
Steps-InPlace (then_step s t u steps step) v = Step-InPlace step (Steps-InPlace steps v)
