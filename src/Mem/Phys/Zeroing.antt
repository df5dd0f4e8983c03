-- ===== src/Mem/Phys/Zeroing.antt =====
-- kernel/src/mem/phys.rs: zero_free_pages.
pub mod Loop
use roanix.Prelude.{
  ℕ, zero, suc, ◌+◌, ◌-◌, ◌≤◌, ◌≡◌, inl, inr, refl, ◌∙◌, min, Bool, true, false, not, ◌||◌, List,
  [], ◌∷◌, length, contains, ◌==◌, if◌then◌else◌, arith, Option-cases, Bool-cases,
}
use roanix.Mem.Phys.PageEntry.{PageState, zeroed}
use roanix.Mem.Phys.Queues.{PmmState, pop_front, push_back, page_cache_refill}
use roanix.Mem.Phys.Totals.{
  sum, pmm_total, total, pop_front-total, push_back-total, pmm_total-count,
}
use roanix.Mem.Phys.Taking.Popping.{unknown}
use roanix.Mem.Phys.Putting.{charge_all, charge_all-nil, charge_all-cons}
use roanix.Mem.Phys.Frames.{at, waits, given, IsPhys, fetch_add-small}
use roanix.Mem.Phys.Totals.{one, IsCounted, charge-one}
use roanix.Mem.Phys.Counting.{push_back-IsCounted}
use roanix.Mem.Phys.{
  Phys, assign_at, fetch_add, zero_page, pop_fronts, push_backs, zero_pages_of, zero_free_pages,
}
use roanix.Mem.Phys.Zeroing.Loop.{
  pop_fronts-total, push_backs-total, pop_fronts-IsCounted, push_backs-IsCounted, IsZeroed,
  zero_pages_of-IsZeroed, contains-at_least, contains-not, sum-one, given-found, kinds,
}

module _ (s z : Phys) (ps : List ℕ) (m : PmmState) (out : List ℕ) (v : IsPhys s out)
    (changed : IsZeroed ps s z)
    (taken : (f : ℕ → ℕ) (y : Bool)
      → pmm_total f y s.pool.pmm ≡ charge_all f ps false y + pmm_total f y m)
    (counted : IsCounted (push_backs ps m)) where
  abbrev after : Phys
  after = record s {
    pages = z.pages;
    clear = z.clear;
    pool = record s.pool { pmm = push_backs ps m };
    zero_pages = fetch_add s.zero_pages (length ps);
  }

  after-held : (x : ℕ) (y : Bool) → total (at x) y after.pool ≡ waits y (z.pages x).state
  after-held x true = elim (Bool-cases (contains x ps)) [
    | inl found ↦
        rw (changed.states x, found)
          (omega (
            arith,
            contains-at_least x ps found,
            push_backs-total ps m (at x) true,
            taken (at x) true,
            taken (at x) false,
            v.held x true,
            v.held x false,
            kinds (s.pages x).state,
          ))
    | inr kept ↦
        rw (changed.states x, kept)
          (omega (
            arith,
            contains-not x ps kept,
            push_backs-total ps m (at x) true,
            taken (at x) true,
            v.held x true,
          ))
  ]
  after-held x false = elim (Bool-cases (contains x ps)) [
    | inl found ↦
        rw (changed.states x, found)
          (omega (
            arith,
            contains-at_least x ps found,
            push_backs-total ps m (at x) false,
            taken (at x) false,
            v.held x false,
            kinds (s.pages x).state,
          ))
    | inr kept ↦
        rw (changed.states x, kept)
          (omega (
            arith,
            contains-not x ps kept,
            push_backs-total ps m (at x) false,
            taken (at x) false,
            v.held x false,
          ))
  ]

  after-out : (x : ℕ) → sum (at x) out ≡ given (z.pages x).state
  after-out x = elim (Bool-cases (contains x ps)) [
    | inl found ↦
        rw (changed.states x, found)
          (v.out_given x
            ∙ given-found (s.pages x).state
                (omega (arith, contains-at_least x ps found, taken (at x) false, v.held x false)))
    | inr kept ↦ rw (changed.states x, kept) (v.out_given x)
  ]

  more_zeros : after.zero_pages ≡ s.zero_pages + length ps
  more_zeros = fetch_add-small s.zero_pages (length ps) (
      omega (
        arith,
        v.zero_counted,
        v.free_counted,
        v.conserved,
        v.bounded,
        taken one false,
        sum-one ps,
      ))

  after-known : (y : Bool) → charge_all (unknown s.pool.segments) ps true y ≡ 0
  after-known true = omega (arith, taken (unknown s.pool.segments) false, v.known false)
  after-known false = refl

  after-IsPhys : IsPhys after out
  after-IsPhys = record {
    laid = v.laid;
    listed = counted;
    known = λ y. omega (
      arith,
      push_backs-total ps m (unknown s.pool.segments) y,
      after-known y,
      taken (unknown s.pool.segments) y,
      v.known y,
    );
    held = after-held;
    out_given = after-out;
    out_known = v.out_known;
    cleared = λ x e. ground (arith, changed.clears x, changed.states x, v.cleared x);
    free_counted = omega (
      arith,
      v.free_counted,
      taken one false,
      taken one true,
      push_backs-total ps m one false,
      push_backs-total ps m one true,
    );
    zero_counted =
        more_zeros
        ∙ omega (arith, v.zero_counted, taken one true, push_backs-total ps m one true, sum-one ps);
    used_counted = v.used_counted;
    conserved = v.conserved;
    bounded = v.bounded;
  }

length-pop_fronts : (n : ℕ) (m : PmmState) → length (pop_fronts n m).0 ≤ n
unfolding pop_fronts
length-pop_fronts zero m = omega arith
length-pop_fronts (suc n) m = elim (Option-cases (pop_front false m)) [
  | inl nothing ↦ rw (nothing, pop_fronts) (omega arith)
  | inr ((p, m'), front) ↦
      rw (front, pop_fronts)
        (omega (arith, length-pop_fronts n (record m' { nfree = m'.nfree - 1 })))
]

-- Frames become known to hold zeros, and every frame stays in its place.
pub record IsZeroing (maximum : ℕ) (s : Phys) (out : List ℕ) (r : ℕ × Phys) : Type 0 where
  pub valid : IsPhys r.1 out
  pub at_most : r.0 ≤ maximum
  pub counted : r.1.zero_pages ≡ s.zero_pages + r.0
  pub keeps_free : r.1.free_pages ≡ s.free_pages

-- zero_free_pages clears at most as many free frames as it may, returns how many, and leaves every
-- frame in its place.
pub zero_free_pages-IsZeroing :
    (maximum : ℕ) (s : Phys) (out : List ℕ)
    → IsPhys s out
    → IsZeroing maximum s out (zero_free_pages maximum s)
unfolding zero_free_pages
zero_free_pages-IsZeroing maximum s out v =
    let found = pop_fronts (min maximum page_cache_refill) s.pool.pmm in
    let z = zero_pages_of found.0 s in
    let changed = zero_pages_of-IsZeroed found.0 s in
    let taken = pop_fronts-total (min maximum page_cache_refill) s.pool.pmm in
    let counted =
      push_backs-IsCounted found.0 found.1
        (pop_fronts-IsCounted (min maximum page_cache_refill) s.pool.pmm v.listed) in
    elim (Bool-cases (maximum == 0 || not s.ready)) [
      | inl nothing ↦
          rw (nothing, zero_free_pages)
            (record { valid = v; at_most = omega arith; counted = omega arith; keeps_free = refl })
      | inr some_left ↦
          rw (some_left, zero_free_pages)
            (record {
              valid = after-IsPhys s z found.0 found.1 out v changed taken counted;
              at_most = omega (arith, length-pop_fronts (min maximum page_cache_refill) s.pool.pmm);
              counted = more_zeros s z found.0 found.1 out v changed taken counted;
              keeps_free = refl;
            })
    ]
