-- ===== src/Mem/Phys/Releasing.antt =====
-- kernel/src/mem/phys.rs: a frame that is given back.
pub mod Entries
use roanix.Prelude.{
  ℕ, suc, ◌+◌, ◌-◌, ◌<◌, ◌≡◌, inl, inr, refl, sym, ap, subst, ◌∙◌, Bool, true, false, some, List,
  [], ◌∷◌, length, get_elem?, ◌==◌, if◌then◌else◌, u64_mod, arith, Bool-cases, ==_refl, ==_iff,
}
use roanix.Mem.PhysSeg.{IsLaidOut}
use roanix.Mem.Phys.PageEntry.{
  PageState, Page, unused, unowned, no_flags, free, zeroed, allocated, release,
}
use roanix.Mem.Phys.Queues.{PageCache, Pool, erase}
use roanix.Mem.Phys.Queues.Giving.{put_page}
use roanix.Mem.Phys.Totals.{sum, charge, total}
use roanix.Mem.Phys.Taking.Popping.{unknown}
use roanix.Mem.Phys.Putting.{put_page-IsPut}
use roanix.Mem.Phys.Frames.{
  at, waits, given, IsPhys, fetch_sub-one, fetch_add-small, unlinked, charge-other, at-same,
  waits-allocated,
}
use roanix.Mem.Phys.Totals.{one, charge-one, IsCounted}
use roanix.Mem.Phys.Counting.{put_page-IsCounted}
use roanix.Mem.Phys.{
  Phys, Caller, assign_at, fetch_add, prepare_free, count_freed, put_back, free_page,
}
use roanix.Mem.Phys.Releasing.Entries.{
  sum-erase, length-erase, IsReleasable, released, release-released, charge-released, at-other,
  kind_of_zeroed, given-released, charge-known, zeros_more,
}

-- The state after the frame was put into the pool `q`.
abbrev after_free : Phys → Pool → ℕ → Bool → Phys
after_free s q p zero_filled = record (count_freed s zero_filled) {
  pool = q;
  pages = assign_at s.pages p (released zero_filled (s.pages p));
}

module _ (s : Phys) (q : Pool) (out : List ℕ) (p : ℕ) (zero_filled : Bool) (v : IsPhys s out)
    (r : IsReleasable (s.pages p)) (holds_zeros : zero_filled ≡ true → s.clear p ≡ true)
    (same_segments : q.segments ≡ s.pool.segments)
    (put : (f : ℕ → ℕ) (y : Bool) → total f y q ≡ charge f p zero_filled y + total f y s.pool)
    (counted : IsCounted q.pmm) where
  abbrev freed : Phys
  freed = after_free s q p zero_filled

  was_out : sum (at p) out ≡ 1
  was_out = v.out_given p ∙ ap given r.is_out

  p_known : unknown s.pool.segments p ≡ 0
  p_known = omega (arith, sum-erase (unknown s.pool.segments) p out was_out, v.out_known)

  freed-held : (x : ℕ) (z : Bool) → total (at x) z q ≡ waits z (freed.pages x).state
  unfolding count_freed
  freed-held x z = elim (Bool-cases (x == p)) [
    | inl same ↦
        subst (λ (x : ℕ). total (at x) z q ≡ waits z (freed.pages x).state)
          (sym ((==_iff x p).0 same))
          (rw (==_refl p, assign_at)
            (omega (
              arith,
              put (at p) z,
              charge-released p zero_filled z,
              v.held p z,
              ap (waits z) r.is_out,
              waits-allocated z,
            )))
    | inr other ↦
        rw (other, assign_at)
          (omega (arith, put (at x) z, charge-other x p zero_filled z other, v.held x z))
  ]

  freed-out : (x : ℕ) → sum (at x) (erase p out) ≡ given (freed.pages x).state
  unfolding count_freed
  freed-out x = elim (Bool-cases (x == p)) [
    | inl same ↦
        subst (λ (x : ℕ). sum (at x) (erase p out) ≡ given (freed.pages x).state)
          (sym ((==_iff x p).0 same))
          (rw (==_refl p, assign_at)
            (omega (
              arith,
              sum-erase (at p) p out was_out,
              at-same p,
              was_out,
              given-released zero_filled,
            )))
    | inr other ↦
        rw (other, assign_at)
          (omega (arith, sum-erase (at x) p out was_out, v.out_given x, at-other x p other))
  ]

  used_left : s.used_pages ≡ suc (length (erase p out))
  used_left = v.used_counted ∙ length-erase p out was_out

  used : freed.used_pages ≡ s.used_pages - 1
  unfolding count_freed
  used = fetch_sub-one s.used_pages (omega (arith, used_left))

  more_free : freed.free_pages ≡ s.free_pages + 1
  unfolding count_freed
  more_free = fetch_add-small s.free_pages 1 (omega (arith, used_left, v.conserved, v.bounded))

  more_zeros : freed.zero_pages ≡ total one true q
  unfolding count_freed
  more_zeros =
      zeros_more p zero_filled s.zero_pages
        (omega (arith, v.zero_counted, v.free_counted, v.conserved, v.bounded, used_left))
        (put one true ∙ ap (λ (n : ℕ). charge one p zero_filled true + n) (sym v.zero_counted))

  freed-cleared : (x : ℕ) → (freed.pages x).state ≡ zeroed → freed.clear x ≡ true
  unfolding count_freed
  freed-cleared x e = elim (Bool-cases (x == p)) [
    | inl same ↦
        subst (λ (x : ℕ). s.clear x ≡ true) (sym ((==_iff x p).0 same))
          (holds_zeros (
            kind_of_zeroed zero_filled (
              subst
                (λ b. (if b then released zero_filled (s.pages p) else s.pages x).state ≡ zeroed)
                same e)))
    | inr other ↦ v.cleared x (
        subst (λ b. (if b then released zero_filled (s.pages p) else s.pages x).state ≡ zeroed)
          other e)
  ]

  freed-IsPhys : IsPhys freed (erase p out)
  unfolding count_freed
  freed-IsPhys = record {
    laid = subst (IsLaidOut 0 0) (sym same_segments) v.laid;
    listed = counted;
    known = λ y.
        subst (λ segments. total (unknown segments) y q ≡ 0) (sym same_segments)
          (omega (
            arith,
            put (unknown s.pool.segments) y,
            v.known y,
            charge-known (unknown s.pool.segments) p zero_filled y p_known,
          ));
    held = freed-held;
    out_given = freed-out;
    out_known =
        subst (λ segments. sum (unknown segments) (erase p out) ≡ 0) (sym same_segments)
          (omega (arith, sum-erase (unknown s.pool.segments) p out was_out, v.out_known));
    cleared = freed-cleared;
    free_counted =
        more_free
        ∙ omega (arith, put one false, put one true, charge-one p zero_filled, v.free_counted);
    zero_counted = more_zeros;
    used_counted = used ∙ omega (arith, used_left);
    conserved = rw (used, more_free) (omega (arith, v.conserved, used_left));
    bounded = v.bounded;
  }

prepare_free-released :
    (s : Phys) (out : List ℕ) (p : ℕ) (zero_filled : Bool)
    → IsPhys s out
    → IsReleasable (s.pages p)
    → prepare_free s p zero_filled
      ≡ some (record s { pages = assign_at s.pages p (released zero_filled (s.pages p)) })
unfolding prepare_free
prepare_free-released s out p zero_filled v r =
    rw
      (
        unlinked s p (λ z. v.held p z ∙ ap (waits z) r.is_out ∙ waits-allocated z),
        prepare_free,
        release-released zero_filled (s.pages p) r,
      )
      refl

free_page-puts :
    (caller : Caller) (p : ℕ) (zero_filled : Bool) (s : Phys) (out : List ℕ) {q : Pool}
    → IsPhys s out
    → IsReleasable (s.pages p)
    → put_page p zero_filled caller.cpu s.pool ≡ some q
    → free_page caller p zero_filled s ≡ some (after_free s q p zero_filled)
unfolding free_page put_back count_freed
free_page-puts caller p zero_filled s out v r e =
    rw (prepare_free-released s out p zero_filled v r, free_page, e, put_back) refl

-- A frame that is out and that nobody uses can be given back, with zeros in it if that is claimed:
-- no assertion fails on a CPU with a cache, also where the cache is full, and every frame is in its
-- place again.
pub free_page-IsPhys :
    (caller : Caller) (p : ℕ) (zero_filled : Bool) (s : Phys) (out : List ℕ) {c : PageCache}
    → IsPhys s out
    → IsReleasable (s.pages p)
    → (zero_filled ≡ true → s.clear p ≡ true)
    → get_elem? s.pool.caches caller.cpu ≡ some c
    → (s' : Phys) × (free_page caller p zero_filled s ≡ some s') × IsPhys s' (erase p out)
free_page-IsPhys caller p zero_filled s out v r holds_zeros at_cpu =
    let (q, e, same, put) = put_page-IsPut p zero_filled caller.cpu s.pool v.known at_cpu in
    (
      after_free s q p zero_filled,
      free_page-puts caller p zero_filled s out v r e,
      freed-IsPhys s q out p zero_filled v r holds_zeros same put
          (put_page-IsCounted p zero_filled caller.cpu s.pool e v.listed),
    )
