-- ===== src/Sys/Calendar/Tournament.antt =====
-- kernel/src/sys/clock.rs: `update` keeps the tournament, whose root is the earliest head.
use Prim.Native.Nat.{ℕ, zero, suc, ◌+◌, ◌-◌, ◌*◌, ◌/◌, ◌≤◌, ◌<◌}
use roanix.Prelude.{
  ◌≡◌, ◌≢◌, ◌⊎◌, inl, inr, refl, sym, ap, ◌∙◌, subst, Option, none, some, ℕ_discrete, arith,
}
use roanix.Sys.Calendar.{Key, at, key, won, better, leaf_of}
use roanix.Sys.Calendar.Path.{above, InLevel, InLevel-left, InLevel-right, above-apart}

-- A subtree of the tournament, by the first keys of the buckets: a leaf stands for its bucket, if that
-- is not empty, and every other node for the better of the two below it.
abbrev pub IsTree : (ℕ → Option Key) → (ℕ → ℕ) → (ℕ → Key) → ℕ → ℕ → Type 0
IsTree fronts w heads zero n =
    (w n ≡ leaf_of (n - 256) (fronts (n - 256))) × (key heads (w n) ≡ fronts (n - 256))
IsTree fronts w heads (suc k) n =
    IsTree fronts w heads k (n * 2)
    × IsTree fronts w heads k (n * 2 + 1)
    × (w n ≡ better heads (w (n * 2)) (w (n * 2 + 1)))

pub at-same {ℓ} : {A : Type ℓ} (i j : ℕ) (v : A) (f : ℕ → A) → j ≡ i → at i v f j ≡ v
unfolding at
at-same i j v f e = ground (arith, e)

pub at-other {ℓ} : {A : Type ℓ} (i j : ℕ) (v : A) (f : ℕ → A) → j ≢ i → at i v f j ≡ f j
unfolding at
at-other i j v f e = ground (arith, e)

pub won-one : (ka kb : Option Key) (a b : ℕ) → (won ka kb a b ≡ a) ⊎ (won ka kb a b ≡ b)
unfolding won
won-one none kb a b = inr refl
won-one (some ka) none a b = inl refl
won-one (some ka) (some kb) a b = ground arith

-- The winner of a subtree is a bucket below it, or none.
pub winner-below :
    (fronts : ℕ → Option Key) (w : ℕ → ℕ) (heads : ℕ → Key) (k n : ℕ)
    → InLevel k n
    → IsTree fronts w heads k n
    → (w n ≡ 256) ⊎ (above k (256 + w n) ≡ n)
unfolding leaf_of better
winner-below fronts w heads zero n l h = ground (arith, l, h.0)
winner-below fronts w heads (suc k) n l (a, b, e) = ground (
  arith,
  e,
  won-one (key heads (w (n * 2))) (key heads (w (n * 2 + 1))) (w (n * 2)) (w (n * 2 + 1)),
  winner-below fronts w heads k (n * 2) (InLevel-left k n l) a,
  winner-below fronts w heads k (n * 2 + 1) (InLevel-right k n l) b,
)

key-other :
    (heads other : ℕ → Key) (b v : ℕ)
    → ((j : ℕ) → j ≢ b → other j ≡ heads j)
    → v ≢ b
    → key other v ≡ key heads v
unfolding key
key-other heads other b v h ne = ground (arith, h v ne)

better-other :
    (heads other : ℕ → Key) (b u v : ℕ)
    → ((j : ℕ) → j ≢ b → other j ≡ heads j)
    → u ≢ b
    → v ≢ b
    → better other u v ≡ better heads u v
unfolding better
better-other heads other b u v h nu nv =
    ap (λ k. won k (key other v) u v) (key-other heads other b u h nu)
    ∙ ap (λ k. won (key heads u) k u v) (key-other heads other b v h nv)

-- Two states of a tournament that differ on the path from the leaf of one bucket only.
module _ (fronts fronts_next : ℕ → Option Key) (w w_next : ℕ → ℕ) (heads heads_next : ℕ → Key)
    (b : ℕ) (lt : b < 256) (f : (j : ℕ) → j ≢ b → fronts_next j ≡ fronts j)
    (h : (j : ℕ) → j ≢ b → heads_next j ≡ heads j)
    (o : (m : ℕ) → ((j : ℕ) → m ≢ above j (256 + b)) → w_next m ≡ w m) where
  off_path-winner :
      (k n : ℕ)
      → InLevel k n
      → n ≢ above k (256 + b)
      → IsTree fronts w heads k n
      → (w_next n ≡ w n) × (w n ≢ b)
  off_path-winner k n l off t = (
    o n (λ j e. elim (ℕ_discrete j k) [
      | yes jk ↦ off (subst (λ i. n ≡ above i (256 + b)) jk e)
      | no ne ↦ above-apart j k (256 + b) n (omega arith) (omega (arith, lt)) l ne e
    ]),
    λ e. elim (winner-below fronts w heads k n l t) [
      | inl z ↦ omega (arith, z, e, lt)
      | inr q ↦ off (sym (subst (λ v. above k (256 + v) ≡ n) e q))
    ],
  )

  -- A subtree off the path stays what it is.
  pub off_path :
      (k n : ℕ)
      → InLevel k n
      → n ≢ above k (256 + b)
      → IsTree fronts w heads k n
      → IsTree fronts_next w_next heads_next k n
  off_path zero n l off t =
      let (s, ne) = off_path-winner zero n l off t in
      let fn = f (n - 256) (λ e. off (omega (arith, e, l.0))) in
      (
        s ∙ t.0 ∙ ap (leaf_of (n - 256)) (sym fn),
        ap (key heads_next) s ∙ key-other heads heads_next b (w n) h ne ∙ t.1 ∙ sym fn,
      )
  off_path (suc k) n l off (ta, tb, e) =
      let la = InLevel-left k n l in
      let lb = InLevel-right k n l in
      let offa : n * 2 ≢ above k (256 + b) = λ q. off (omega (arith, ap (λ m. m / 2) q)) in
      let offb : n * 2 + 1 ≢ above k (256 + b) = λ q. off (omega (arith, ap (λ m. m / 2) q)) in
      let (sa, na) = off_path-winner k (n * 2) la offa ta in
      let (sb, nb) = off_path-winner k (n * 2 + 1) lb offb tb in
      let (sn, nn) = off_path-winner (suc k) n l off (ta, tb, e) in
      (
        off_path k (n * 2) la offa ta,
        off_path k (n * 2 + 1) lb offb tb,
        sn
            ∙ e
            ∙ sym (better-other heads heads_next b (w (n * 2)) (w (n * 2 + 1)) h na nb)
            ∙ ap (λ v. better heads_next v (w (n * 2 + 1))) (sym sa)
            ∙ ap (better heads_next (w_next (n * 2))) (sym sb),
      )

-- A write to a node of a higher level leaves a subtree as it is.
pub write_above :
    (fronts : ℕ → Option Key) (w : ℕ → ℕ) (heads : ℕ → Key) (top x v : ℕ)
    → 256 ≤ x
    → x < 512
    → (k n : ℕ) → k < top
    → InLevel k n
    → IsTree fronts w heads k n
    → IsTree fronts (at (above top x) v w) heads k n
write_above fronts w heads top x v lo hi zero n lt l t =
    let s = at-other (above top x) n v w (above-apart top zero x n lo hi l (omega (arith, lt))) in
    (s ∙ t.0, ap (key heads) s ∙ t.1)
write_above fronts w heads top x v lo hi (suc k) n lt l (ta, tb, e) =
    let la = InLevel-left k n l in
    let lb = InLevel-right k n l in
    let lk : k < top = omega (arith, lt) in
    let node = above top x in
    let apart : (m i : ℕ) → i < top → InLevel i m → at node v w m ≡ w m =
      λ m i less lm. at-other node m v w (above-apart top i x m lo hi lm (omega (arith, less))) in
    (
      write_above fronts w heads top x v lo hi k (n * 2) lk la ta,
      write_above fronts w heads top x v lo hi k (n * 2 + 1) lk lb tb,
      apart n (suc k) lt l
          ∙ e
          ∙ ap (λ u. better heads u (w (n * 2 + 1))) (sym (apart (n * 2) k lk la))
          ∙ ap (better heads (at node v w (n * 2))) (sym (apart (n * 2 + 1) k lk lb)),
    )
