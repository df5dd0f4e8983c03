-- ===== src/Sys/Calendar/Earliest.antt =====
-- kernel/src/sys/clock.rs: the root of the tournament is the earliest head.
use Prim.Native.Nat.{ℕ, zero, suc, ◌+◌, ◌-◌, ◌*◌, ◌≤◌, ◌<◌}
use roanix.Prelude.{
  ◌≡◌, ◌⊎◌, inl, inr, refl, sym, ap, ◌∙◌, subst, true, false, Option, none, some, List, [], ◌∷◌,
  if◌then◌else◌, ℕ_discrete, arith,
}
use roanix.Sys.Calendar.{
  Key, Calendar, at, key, key_le, won, better, leaf_of, update, next_deadline, deadline_of, new,
}
use roanix.Sys.Calendar.Path.{above, InLevel, InLevel-left, InLevel-right}
use roanix.Sys.Calendar.Tournament.{IsTree, won-one, at-other, at-same}
use roanix.Sys.Calendar.Update.{IsCalendar, update-IsCalendar}

-- A key that is no later than another one, where there is one.
abbrev Before : Option Key → Key → Type 0
Before none k = 0 < 0
Before (some w) k = key_le w k ≡ true

key_le_refl : (k : Key) → key_le k k ≡ true
unfolding key_le
key_le_refl k = ground arith

-- The better of two nodes is no later than either.
better-Before :
    (heads : ℕ → Key) (u v : ℕ) (ka kb : Option Key) (k : Key)
    → key heads u ≡ ka
    → key heads v ≡ kb
    → Before ka k ⊎ Before kb k
    → Before (key heads (won ka kb u v)) k
unfolding won key_le
better-Before heads u v none none k ea eb h = ground (arith, h)
better-Before heads u v none (some b) k ea eb h =
    subst (λ o. Before o k) (sym eb) (ground (arith, h))
better-Before heads u v (some a) none k ea eb h =
    subst (λ o. Before o k) (sym ea) (ground (arith, h))
better-Before heads u v (some a) (some b) k ea eb h =
    elim (key_le a b) as (λ t. key_le a b ≡ t → Before (key heads (if t then u else v)) k) [
      | true ↦ λ e. subst (λ o. Before o k) (sym ea) (ground (arith, h, e))
      | false ↦ λ e. subst (λ o. Before o k) (sym eb) (ground (arith, h, e))
    ]
      refl

-- The winner of a subtree is no later than any head below it.
winner-Before :
    (fronts : ℕ → Option Key) (w : ℕ → ℕ) (heads : ℕ → Key) (b : ℕ) (kx : Key)
    → fronts b ≡ some kx
    → (k n : ℕ) → above k (256 + b) ≡ n
    → IsTree fronts w heads k n
    → Before (key heads (w n)) kx
unfolding better
winner-Before fronts w heads b kx e zero n a t =
    let place : n - 256 ≡ b = omega (arith, a) in
    subst (λ o. Before o kx) (sym (t.1 ∙ ap fronts place ∙ e)) (key_le_refl kx)
winner-Before fronts w heads b kx e (suc k) n a (ta, tb, q) =
    let m = above k (256 + b) in
    let u = w (n * 2) in
    let v = w (n * 2 + 1) in
    let side : Before (key heads u) kx ⊎ Before (key heads v) kx = elim (ℕ_discrete m (n * 2)) [
      | yes even ↦ inl (winner-Before fronts w heads b kx e k (n * 2) even ta)
      | no odd ↦ inr (winner-Before fronts w heads b kx e k (n * 2 + 1) (omega (arith, odd, a)) tb)
    ] in
    subst (λ i. Before (key heads i) kx) (sym q)
      (better-Before heads u v (key heads u) (key heads v) kx refl refl side)

-- The key of a winner is the head of some bucket, or there is none.
winner-attained :
    (fronts : ℕ → Option Key) (w : ℕ → ℕ) (heads : ℕ → Key) (k n : ℕ)
    → InLevel k n
    → IsTree fronts w heads k n
    → (j : ℕ) × (j < 256) × (key heads (w n) ≡ fronts j)
unfolding better
winner-attained fronts w heads zero n l t = (n - 256, omega (arith, l.0, l.1), t.1)
winner-attained fronts w heads (suc k) n l (ta, tb, q) =
    let a = winner-attained fronts w heads k (n * 2) (InLevel-left k n l) ta in
    let b = winner-attained fronts w heads k (n * 2 + 1) (InLevel-right k n l) tb in
    elim (won-one (key heads (w (n * 2))) (key heads (w (n * 2 + 1))) (w (n * 2)) (w (n * 2 + 1))) [
      | inl e ↦ (a.0, a.1, ap (key heads) (q ∙ e) ∙ a.2)
      | inr e ↦ (b.0, b.1, ap (key heads) (q ∙ e) ∙ b.2)
    ]

empty-front : (o : Option Key) → ((k : Key) → o ≡ some k → 0 < 0) → o ≡ none
empty-front none h = refl
empty-front (some k) h = let no : 0 < 0 = h k refl in elim no [ ]

-- A deadline that is the head of a bucket and no later than any head, or none where every bucket is
-- empty.
abbrev pub IsEarliest : (ℕ → Option Key) → Option ℕ → Type 0
IsEarliest fronts none = (b : ℕ) → b < 256 → fronts b ≡ none
IsEarliest fronts (some d) =
    ((b : ℕ) × (b < 256) × (deadline_of (fronts b) ≡ some d))
    × ((b : ℕ) (k : Key) → b < 256 → fronts b ≡ some k → d ≤ k.0)

deadline_of-IsEarliest :
    (fronts : ℕ → Option Key) (o : Option Key)
    → ((j : ℕ) × (j < 256) × (o ≡ fronts j))
    → ((b : ℕ) (k : Key) → b < 256 → fronts b ≡ some k → Before o k)
    → IsEarliest fronts (deadline_of o)
unfolding deadline_of key_le
deadline_of-IsEarliest fronts none a h = λ b lt. empty-front (fronts b) (λ k e. h b k lt e)
deadline_of-IsEarliest fronts (some w) a h =
    ((a.0, a.1, ap deadline_of (sym a.2)), λ b k lt e. ground (arith, h b k lt e))

-- A calendar's next deadline is the earliest head of its buckets.
pub next_deadline-IsEarliest :
    (fronts : ℕ → Option Key) (c : Calendar)
    → IsCalendar fronts c
    → IsEarliest fronts (next_deadline c)
unfolding next_deadline
next_deadline-IsEarliest fronts c t =
    deadline_of-IsEarliest fronts (key c.heads (c.winners 1))
      (winner-attained fronts c.winners c.heads 8 1 (omega arith, omega arith) t)
      (λ b k lt e. winner-Before fronts c.winners c.heads b k e 8 1 (omega (arith, lt)) t)

new-IsTree : (k n : ℕ) → IsTree (λ j. none) (λ m. 256) (λ j. (0, 0)) k n
unfolding leaf_of better won key
new-IsTree zero n = (refl, refl)
new-IsTree (suc k) n = (new-IsTree k (n * 2), new-IsTree k (n * 2 + 1), refl)

pub new-IsCalendar : IsCalendar (λ j. none) new
unfolding new
new-IsCalendar = new-IsTree 8 1

-- Changes of buckets, each followed by an `update`: a bucket and its first key from then on.
unfoldable pub run : List (ℕ × Option Key) → Calendar → Calendar
run [] c = c
run ((b, head) ∷ changes) c = run changes (update b head c)

unfoldable pub fronts_after : List (ℕ × Option Key) → (ℕ → Option Key) → ℕ → Option Key
fronts_after [] fronts = fronts
fronts_after ((b, head) ∷ changes) fronts = fronts_after changes (at b head fronts)

abbrev pub AllBuckets : List (ℕ × Option Key) → Type 0
AllBuckets [] = Unit {0}
AllBuckets ((b, head) ∷ changes) = (b < 256) × AllBuckets changes

run-IsCalendar :
    (changes : List (ℕ × Option Key)) (fronts : ℕ → Option Key) (c : Calendar)
    → AllBuckets changes
    → IsCalendar fronts c
    → IsCalendar (fronts_after changes fronts) (run changes c)
unfolding run fronts_after
run-IsCalendar [] fronts c v t = t
run-IsCalendar ((b, head) ∷ changes) fronts c v t =
    let next = at b head fronts in
    let e : next b ≡ head = at-same b b head fronts refl in
    run-IsCalendar changes next (update b head c) v.1 (
      subst (λ o. IsCalendar next (update b o c)) e
        (update-IsCalendar fronts next c b v.0 (λ j ne. at-other b j head fronts ne) t))

-- Whatever changes the buckets go through, each followed by its `update`, the next deadline is the
-- earliest of the first keys of all 256 buckets, and there is none where all are empty.
pub run_new-IsEarliest :
    (changes : List (ℕ × Option Key))
    → AllBuckets changes
    → IsEarliest (fronts_after changes (λ b. none)) (next_deadline (run changes new))
run_new-IsEarliest changes v =
    next_deadline-IsEarliest (fronts_after changes (λ b. none)) (run changes new)
      (run-IsCalendar changes (λ b. none) new v new-IsCalendar)

leaf-is : (b : ℕ) (o : Option Key) → (leaf_of b o ≡ 256) ⊎ (leaf_of b o ≡ b)
unfolding leaf_of
leaf-is b none = inl refl
leaf-is b (some k) = inr refl

-- The winner of a subtree is none, or a bucket with the key that is cached for it.
winner-cached :
    (fronts : ℕ → Option Key) (w : ℕ → ℕ) (heads : ℕ → Key) (k n : ℕ)
    → InLevel k n
    → IsTree fronts w heads k n
    → (w n ≡ 256) ⊎ ((w n < 256) × (fronts (w n) ≡ key heads (w n)))
unfolding better
winner-cached fronts w heads zero n l t = elim (leaf-is (n - 256) (fronts (n - 256))) [
  | inl e ↦ inl (t.0 ∙ e)
  | inr e ↦ inr (omega (arith, t.0 ∙ e, l.0, l.1), ap fronts (t.0 ∙ e) ∙ sym t.1)
]
winner-cached fronts w heads (suc k) n l (ta, tb, q) =
    let P : ℕ → Type 0 = λ i. (i ≡ 256) ⊎ ((i < 256) × (fronts i ≡ key heads i)) in
    elim (won-one (key heads (w (n * 2))) (key heads (w (n * 2 + 1))) (w (n * 2)) (w (n * 2 + 1))) [
      | inl e ↦
          subst P (sym (q ∙ e)) (winner-cached fronts w heads k (n * 2) (InLevel-left k n l) ta)
      | inr e ↦
          subst P (sym (q ∙ e))
            (winner-cached fronts w heads k (n * 2 + 1) (InLevel-right k n l) tb)
    ]

-- The bucket that won has the next deadline at its front.
pub winner-fronts :
    (fronts : ℕ → Option Key) (c : Calendar) (d : ℕ)
    → IsCalendar fronts c
    → next_deadline c ≡ some d
    → (c.winners 1 < 256) × (deadline_of (fronts (c.winners 1)) ≡ some d)
unfolding next_deadline deadline_of key
winner-fronts fronts c d t e =
    elim (winner-cached fronts c.winners c.heads 8 1 (omega arith, omega arith) t) [
      | inl z ↦ ground (arith, z, e)
      | inr h ↦ (h.0, ap deadline_of h.1 ∙ e)
    ]
