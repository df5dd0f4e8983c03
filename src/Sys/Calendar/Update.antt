-- ===== src/Sys/Calendar/Update.antt =====
-- kernel/src/sys/clock.rs: `update` restores the tournament after a change of one bucket.
use Prim.Native.Nat.{ℕ, zero, suc, ◌+◌, ◌-◌, ◌*◌, ◌/◌, ◌≤◌, ◌<◌}
use roanix.Prelude.{
  ◌≡◌, ◌≢◌, refl, sym, ap, ◌∙◌, subst, true, false, Option, none, some, leb, if◌then◌else◌,
  ℕ_discrete, arith,
}
use roanix.Sys.Calendar.{
  Key, Calendar, at, key, better, climb, leaf_of, heads_with, update, same_key,
}
use roanix.Sys.Calendar.Path.{
  above, InLevel, InLevel-left, InLevel-right, InLevel-pos, InLevel-below,
}
use roanix.Sys.Calendar.Tournament.{IsTree, at-same, at-other, off_path, write_above}

-- The subtree of each node on the path from a leaf.
pub on_path :
    (fronts : ℕ → Option Key) (w : ℕ → ℕ) (heads : ℕ → Key) (x : ℕ)
    → 256 ≤ x
    → x < 512
    → IsTree fronts w heads 8 1
    → (d k : ℕ) → d + k ≡ 8
    → InLevel k (above k x) × IsTree fronts w heads k (above k x)
on_path fronts w heads x lo hi t zero k e =
    let root : above 8 x ≡ 1 = omega (arith, lo, hi) in
    let level : 8 ≡ k = omega (arith, e) in
    subst (λ i. InLevel i (above i x) × IsTree fronts w heads i (above i x)) level
      (subst (λ m. InLevel 8 m × IsTree fronts w heads 8 m) (sym root)
        ((omega arith, omega arith), t))
on_path fronts w heads x lo hi t (suc d) k e =
    let (l, (ta, tb, q)) = on_path fronts w heads x lo hi t d (suc k) (omega (arith, e)) in
    let m = above k x in
    elim (ℕ_discrete m (m / 2 * 2)) [
      | yes even ↦
          subst (λ i. InLevel k i × IsTree fronts w heads k i) (sym even)
            (InLevel-left k (m / 2) l, ta)
      | no odd ↦
          let o : m / 2 * 2 + 1 ≡ m = omega (arith, odd) in
          subst (λ i. InLevel k i × IsTree fronts w heads k i) o (InLevel-right k (m / 2) l, tb)
    ]

module _ (fronts fronts_next : ℕ → Option Key) (w : ℕ → ℕ) (heads heads_next : ℕ → Key) (b : ℕ)
    (lt : b < 256) (f : (j : ℕ) → j ≢ b → fronts_next j ≡ fronts j)
    (h : (j : ℕ) → j ≢ b → heads_next j ≡ heads j) (t : IsTree fronts w heads 8 1) where
  -- The winners while the loop climbs: right below a node of the path, as before off the path.
  abbrev Climbs : ℕ → (ℕ → ℕ) → Type 0
  Climbs k w_next =
      IsTree fronts_next w_next heads_next k (above k (256 + b))
      × ((m : ℕ) → ((j : ℕ) → m ≢ above j (256 + b)) → w_next m ≡ w m)

  -- A sibling of a node on the path.
  sibling :
      (k n : ℕ) (w_next : ℕ → ℕ)
      → InLevel k n
      → n ≢ above k (256 + b)
      → IsTree fronts w heads k n
      → ((m : ℕ) → ((j : ℕ) → m ≢ above j (256 + b)) → w_next m ≡ w m)
      → IsTree fronts_next w_next heads_next k n
  sibling k n w_next l off s o =
      off_path fronts fronts_next w w_next heads heads_next b lt f h o k n l off s

  climb-step :
      (d k : ℕ) (w_next : ℕ → ℕ)
      → d + suc k ≡ 8
      → Climbs k w_next
      → let n = above (suc k) (256 + b) in
        Climbs (suc k) (at n (better heads_next (w_next (n * 2)) (w_next (n * 2 + 1))) w_next)
  climb-step d k w_next e (s, o) =
      let x = 256 + b in
      let m = above k x in
      let n = above (suc k) x in
      let v = better heads_next (w_next (n * 2)) (w_next (n * 2 + 1)) in
      let next = at n v w_next in
      let (l, (ta, tb, q)) =
        on_path fronts w heads x (omega arith) (omega (arith, lt)) t d (suc k) e in
      let la = InLevel-left k n l in
      let lb = InLevel-right k n l in
      let keeps : (i : ℕ)
          → InLevel k i
          → IsTree fronts_next w_next heads_next k i
          → IsTree fronts_next next heads_next k i =
        λ i li.
          write_above fronts_next w_next heads_next (suc k) x v (omega arith) (omega (arith, lt)) k
            i (omega arith) li in
      let below : IsTree fronts_next w_next heads_next k (n * 2)
          × IsTree fronts_next w_next heads_next k (n * 2 + 1) =
        elim (ℕ_discrete m (n * 2)) [
          | yes even ↦ (
            subst (λ i. IsTree fronts_next w_next heads_next k i) even s,
            sibling k (n * 2 + 1) w_next lb (λ c. omega (arith, c, even)) tb o,
          )
          | no odd ↦
              let c : m ≡ n * 2 + 1 = omega (arith, odd) in
              (
                sibling k (n * 2) w_next la (λ z. odd (sym z)) ta o,
                subst (λ i. IsTree fronts_next w_next heads_next k i) c s,
              )
        ] in
      let pos : 1 ≤ n = InLevel-pos (suc k) n l in
      (
        (
          keeps (n * 2) la below.0,
          keeps (n * 2 + 1) lb below.1,
          at-same n n v w_next refl
              ∙ ap (λ u. better heads_next u (w_next (n * 2 + 1)))
                  (sym (at-other n (n * 2) v w_next (omega (arith, pos))))
              ∙ ap (better heads_next (next (n * 2)))
                  (sym (at-other n (n * 2 + 1) v w_next (omega (arith, pos)))),
        ),
        λ i off. at-other n i v w_next (off (suc k)) ∙ o i off,
      )

  climb-IsTree :
      (d k : ℕ) (w_next : ℕ → ℕ)
      → d + k ≡ 8
      → Climbs k w_next
      → IsTree fronts_next (climb d (above k (256 + b)) heads_next w_next) heads_next 8 1
  unfolding climb
  climb-IsTree zero k w_next e (s, o) =
      let level : k ≡ 8 = omega (arith, e) in
      let root : above 8 (256 + b) ≡ 1 = omega (arith, lt) in
      subst (λ m. IsTree fronts_next w_next heads_next 8 m) root
        (subst (λ i. IsTree fronts_next w_next heads_next i (above i (256 + b))) level s)
  climb-IsTree (suc d) k w_next e c =
      let (l, s) =
        on_path fronts w heads (256 + b) (omega arith) (omega (arith, lt)) t (suc d) k e in
      let two = InLevel-below k (above k (256 + b)) (omega (arith, e)) l in
      let inner : leb (above k (256 + b)) 1 ≡ false = ground (arith, two) in
      let n = above (suc k) (256 + b) in
      let next = at n (better heads_next (w_next (n * 2)) (w_next (n * 2 + 1))) w_next in
      subst
        (λ v. IsTree fronts_next (if v then w_next else climb d n heads_next next) heads_next 8 1)
        (sym inner)
        (climb-IsTree d (suc k) next (omega (arith, e))
          (climb-step d k w_next (omega (arith, e)) c))

key-leaf_of :
    (b : ℕ) (o : Option Key) (heads : ℕ → Key)
    → b < 256
    → key (heads_with b o heads) (leaf_of b o) ≡ o
unfolding key leaf_of heads_with
key-leaf_of b none heads lt = refl
key-leaf_of b (some k) heads lt = ground (arith, lt, at-same b b k heads refl)

heads_with-other :
    (b : ℕ) (o : Option Key) (heads : ℕ → Key) (j : ℕ) → j ≢ b → heads_with b o heads j ≡ heads j
unfolding heads_with
heads_with-other b none heads j ne = refl
heads_with-other b (some k) heads j ne = at-other b j k heads ne

same_key_sound : (a b : Option Key) → same_key a b ≡ true → a ≡ b
unfolding same_key
same_key_sound none none e = refl
same_key_sound none (some b) e = ground (arith, e)
same_key_sound (some a) none e = ground (arith, e)
same_key_sound (some a) (some b) e = ground (arith, e)

-- The same first keys make the same tournament.
pub IsTree-fronts :
    (fronts fronts_next : ℕ → Option Key) (w : ℕ → ℕ) (heads : ℕ → Key)
    → ((j : ℕ) → fronts_next j ≡ fronts j)
    → (k n : ℕ) → IsTree fronts w heads k n
    → IsTree fronts_next w heads k n
IsTree-fronts fronts fronts_next w heads f zero n t =
    (t.0 ∙ ap (leaf_of (n - 256)) (sym (f (n - 256))), t.1 ∙ sym (f (n - 256)))
IsTree-fronts fronts fronts_next w heads f (suc k) n (a, b, e) = (
  IsTree-fronts fronts fronts_next w heads f k (n * 2) a,
  IsTree-fronts fronts fronts_next w heads f k (n * 2 + 1) b,
  e,
)

-- The tournament of a calendar over the first keys of its buckets.
abbrev pub IsCalendar : (ℕ → Option Key) → Calendar → Type 0
IsCalendar fronts c = IsTree fronts c.winners c.heads 8 1

-- An early return is right.
unchanged-IsTree :
    (fronts fronts_next : ℕ → Option Key) (c : Calendar) (b : ℕ)
    → b < 256
    → ((j : ℕ) → j ≢ b → fronts_next j ≡ fronts j)
    → same_key (fronts_next b) (key c.heads (c.winners (256 + b))) ≡ true
    → IsTree fronts c.winners c.heads 8 1
    → IsTree fronts_next c.winners c.heads 8 1
unchanged-IsTree fronts fronts_next c b lt f e t =
    let x = 256 + b in
    let (l, old) =
      on_path fronts c.winners c.heads x (omega arith) (omega (arith, lt)) t 8 0 refl in
    let place : x - 256 ≡ b = omega arith in
    let same : fronts_next b ≡ fronts b =
      same_key_sound (fronts_next b) (key c.heads (c.winners x)) e ∙ old.1 ∙ ap fronts place in
    IsTree-fronts fronts fronts_next c.winners c.heads
      (λ j. elim (ℕ_discrete j b) [
        | yes q ↦ subst (λ i. fronts_next i ≡ fronts i) (sym q) same
        | no ne ↦ f j ne
      ])
      8 1 t

-- The written leaf.
leaf-IsTree :
    (fronts_next : ℕ → Option Key) (w : ℕ → ℕ) (heads : ℕ → Key) (b : ℕ)
    → b < 256
    → IsTree fronts_next
        (at (256 + b) (leaf_of b (fronts_next b)) w)
        (heads_with b (fronts_next b) heads)
        0
        (256 + b)
leaf-IsTree fronts_next w heads b lt =
    let x = 256 + b in
    let place : b ≡ x - 256 = omega arith in
    let leaf = at-same x x (leaf_of b (fronts_next b)) w refl in
    (
      leaf ∙ ap (λ i. leaf_of i (fronts_next i)) place,
      ap (key (heads_with b (fronts_next b) heads)) leaf
          ∙ key-leaf_of b (fronts_next b) heads lt
          ∙ ap fronts_next place,
    )

-- When one bucket has changed, `update` of that bucket makes the tournament right again, also where it
-- returns early.
pub update-IsCalendar :
    (fronts fronts_next : ℕ → Option Key) (c : Calendar) (b : ℕ)
    → b < 256
    → ((j : ℕ) → j ≢ b → fronts_next j ≡ fronts j)
    → IsCalendar fronts c
    → IsCalendar fronts_next (update b (fronts_next b) c)
unfolding update
update-IsCalendar fronts fronts_next c b lt f t =
    let head = fronts_next b in
    let x = 256 + b in
    let heads = heads_with b head c.heads in
    let w = at x (leaf_of b head) c.winners in
    let test = same_key head (key c.heads (c.winners x)) in
    let next : Calendar = record { winners = climb 8 x heads w; heads = heads } in
    elim test as (λ v. test ≡ v → IsCalendar fronts_next (if v then c else next)) [
      | true ↦ λ e. unchanged-IsTree fronts fronts_next c b lt f e t
      | false ↦ λ e.
          climb-IsTree fronts fronts_next c.winners c.heads heads b lt f
            (heads_with-other b head c.heads) t 8 0 w refl
            (
              leaf-IsTree fronts_next c.winners c.heads b lt,
              λ m off. at-other x m (leaf_of b head) c.winners (off 0),
            )
    ]
      refl
