-- ===== src/Mem/Phys/Contiguous/Preparing.antt =====
-- kernel/src/mem/phys.rs: alloc_contiguous gives the frames of its run out.
use roanix.Prelude.{
  ℕ, ◌+◌, ◌-◌, ◌≤◌, ◌<◌, ◌≡◌, inl, inr, refl, sym, ◌∙◌, Bool, true, false, ◌&&◌, some, List, ◌++◌,
  length-append, ltb, leb, ◌==◌, if◌then◌else◌, arith, Bool-cases,
}
use roanix.Mem.Phys.PageEntry.{PageUse, zeroed}
use roanix.Mem.Phys.Queues.{PmmState, Pool}
use roanix.Mem.Phys.Totals.{sum, charge, pmm_total, total, sum-append, pmm_total-count}
use roanix.Mem.Phys.Taking.Popping.{unknown}
use roanix.Mem.Phys.Frames.{
  at, waits, given, IsPhys, fetch_add-small, unlinked, charge-waits, waits-allocated,
}
use roanix.Mem.Phys.Totals.{one}
use roanix.Mem.Phys.{Phys, fetch_add, fetch_sub}
use roanix.Mem.Phys.Contiguous.{is_usable, unlink_frames, claim_unlinked, claim}
use roanix.Mem.Phys.Contiguous.Claiming.{
  range, length-range, sum-range, run_total, run_total-at, run_total-one, kind_of,
  page_by_index-same,
}
use roanix.Mem.Phys.Contiguous.Fresh.{
  freshen, freshen-at, prepare_frames-fresh, fetch_sub-small, waits-kind, given-free, range-known,
  zeros_left,
}

module _ (s : Phys) (out : List ℕ) (usage : PageUse) (count base : ℕ) (m : PmmState)
    (v : IsPhys s out) (usable : (i : ℕ) → base ≤ i → i < base + count → is_usable s i ≡ true)
    (sums : (f : ℕ → ℕ) (y : Bool)
      → pmm_total f y s.pool.pmm ≡ run_total (kind_of s) f y count base + pmm_total f y m)
    (same_count : m.nfree ≡ s.pool.pmm.nfree) where
  abbrev pub pool_after : Pool
  pool_after = record s.pool { pmm = record m { nfree = m.nfree - count } }

  abbrev pub cleared : ℕ
  cleared = run_total (kind_of s) one true count base

  abbrev pub claimed : Phys
  claimed = record s {
    pool = pool_after;
    pages = freshen count usage base s.pages;
    free_pages = fetch_sub s.free_pages count;
    used_pages = fetch_add s.used_pages count;
    zero_pages = if cleared == 0 then s.zero_pages else fetch_sub s.zero_pages cleared;
  }

  after-total :
      (f : ℕ → ℕ) (y : Bool)
      → total f y s.pool ≡ run_total (kind_of s) f y count base + total f y pool_after
  after-total f y = omega (arith, sums f y, pmm_total-count f y m (m.nfree - count))

  in_run-gone : (i : ℕ) → base ≤ i → i < base + count → (z : Bool) → total (at i) z pool_after ≡ 0
  in_run-gone i le lt z =
      let (found, is_free_state, linked) = page_by_index-same s i (usable i le lt) in
      let run : run_total (kind_of s) (at i) z count base ≡ charge (at i) i (kind_of s i) z =
        run_total-at (kind_of s) i z count base ∙ ground arith in
      omega (
        arith,
        after-total (at i) z,
        v.held i z,
        run,
        charge-waits i (kind_of s i) z (s.pages i).state
            (waits-kind (s.pages i).state is_free_state),
      )

  claimed-held : (x : ℕ) (z : Bool) → total (at x) z pool_after ≡ waits z (claimed.pages x).state
  claimed-held x z = elim (Bool-cases (leb base x && ltb x (base + count))) [
    | inl inside ↦
        rw (freshen-at count usage base s.pages x, inside)
          (in_run-gone x (ground arith) (ground arith) z ∙ sym (waits-allocated z))
    | inr outside ↦
        rw (freshen-at count usage base s.pages x, outside)
          (let apart : run_total (kind_of s) (at x) z count base ≡ 0 =
              run_total-at (kind_of s) x z count base ∙ rw outside refl in
            omega (arith, after-total (at x) z, v.held x z, apart))
  ]

  claimed-out : (x : ℕ) → sum (at x) (range count base ++ out) ≡ given (claimed.pages x).state
  claimed-out x = elim (Bool-cases (leb base x && ltb x (base + count))) [
    | inl inside ↦
        rw (freshen-at count usage base s.pages x, inside)
          (let here : sum (at x) (range count base) ≡ 1 = sum-range x count base ∙ rw inside refl in
            let (found, is_free_state, linked) =
              page_by_index-same s x (usable x (ground arith) (ground arith)) in
            omega (
              arith,
              here,
              sum-append (at x) (range count base) out,
              v.out_given x,
              given-free (s.pages x).state is_free_state,
            ))
    | inr outside ↦
        rw (freshen-at count usage base s.pages x, outside)
          (let apart : sum (at x) (range count base) ≡ 0 =
              sum-range x count base ∙ rw outside refl in
            omega (arith, apart, sum-append (at x) (range count base) out, v.out_given x))
  ]

  taken :
      total one false s.pool + total one true s.pool
      ≡ count + (total one false pool_after + total one true pool_after)
  taken =
      omega
        (arith, after-total one false, after-total one true, run_total-one (kind_of s) count base)

  free_left : claimed.free_pages ≡ s.free_pages - count
  free_left = fetch_sub-small s.free_pages count (omega (arith, taken, v.free_counted))

  used_more : claimed.used_pages ≡ s.used_pages + count
  used_more =
      fetch_add-small s.used_pages count
        (omega (arith, taken, v.free_counted, v.conserved, v.bounded))

  zero_left : claimed.zero_pages ≡ s.zero_pages - cleared
  zero_left = zeros_left s.zero_pages cleared (omega (arith, v.zero_counted, after-total one true))

  claimed-cleared : (x : ℕ) → (claimed.pages x).state ≡ zeroed → s.clear x ≡ true
  claimed-cleared x e = ground (arith, freshen-at count usage base s.pages x, v.cleared x)

  pub claimed-IsPhys : IsPhys claimed (range count base ++ out)
  claimed-IsPhys = record {
    laid = v.laid;
    listed = omega (
      arith,
      v.listed,
      same_count,
      sums one false,
      sums one true,
      run_total-one (kind_of s) count base,
    );
    known = λ y. omega (arith, after-total (unknown s.pool.segments) y, v.known y);
    held = claimed-held;
    out_given = claimed-out;
    out_known = omega (
      arith,
      v.out_known,
      range-known s count base usable,
      sum-append (unknown s.pool.segments) (range count base) out,
    );
    cleared = claimed-cleared;
    free_counted = free_left ∙ omega (arith, taken, v.free_counted);
    zero_counted = zero_left ∙ omega (arith, v.zero_counted, after-total one true);
    used_counted =
        used_more
        ∙ omega
            (arith, v.used_counted, length-append (range count base) out, length-range count base);
    conserved = rw (free_left, used_more) (omega (arith, taken, v.free_counted, v.conserved));
    bounded = v.bounded;
  }

  -- No assertion fails in the loop that gives the frames out.
  pub claim-claimed :
      unlink_frames count s base s.pool.pmm ≡ (true, cleared, m)
      → claim usage count base s ≡ some (some base, claimed)
  unfolding claim claim_unlinked
  claim-claimed e =
      rw
        (
          e,
          claim,
          prepare_frames-fresh count usage base (record s { pool = pool_after })
              (λ i le lt. (page_by_index-same s i (usable i le lt)).0)
              (λ i le lt. (page_by_index-same s i (usable i le lt)).1)
              (λ i le lt. unlinked (record s { pool = pool_after }) i (in_run-gone i le lt)),
        )
        refl
