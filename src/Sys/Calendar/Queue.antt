-- ===== src/Sys/Calendar/Queue.antt =====
-- kernel/src/sys/clock.rs: insertion, removal and expiry in the calendar queue. A bucket is an ordered
-- tree of the library: its first key, insertion and removal are parameters, and what the code relies on
-- is that the first key is the least one and that a removal takes one timer with the key away and no other.
use Prim.Native.Nat.{ℕ, ◌+◌, ◌-◌, ◌≤◌, ◌<◌}
use roanix.Prelude.{
  ◌≡◌, refl, sym, ap, ◌∙◌, subst, Bool, true, false, ◌&&◌, ◌||◌, Option, none, some, ◌==◌, ltb,
  if◌then◌else◌, ℕ_discrete, checked_add, arith,
}
use roanix.Sys.Calendar.{
  Key, Calendar, at, key, same_key, bucket_of, update, next_deadline, new, buckets,
}
use roanix.Sys.Calendar.Tournament.{at-same, at-other}
use roanix.Sys.Calendar.Update.{IsCalendar, update-IsCalendar, IsTree-fronts, on_path}
use roanix.Sys.Calendar.Earliest.{new-IsCalendar}

-- `<` on keys
unfoldable pub key_lt : Key → Key → Bool
key_lt a b = ltb a.0 b.0 || (a.0 == b.0 && ltb a.1 b.1)

-- `is_none_or(|key| (deadline, order) < key)`
unfoldable pub goes_first : Key → Option Key → Bool
goes_first k none = true
goes_first k (some head) = key_lt k head

-- The least key of a bucket with one more key.
unfoldable pub first_with : Key → Option Key → Key
first_with k none = k
first_with k (some head) = if key_lt k head then k else head

pub record CalendarQueue {ℓ} (T : Type ℓ) : Type ℓ where
  pub trees : ℕ → T
  pub calendar : Calendar
  pub next_order : ℕ

-- How `pop_expired` ends: with no timer that is due, with a timer, or with a failed assertion.
pub data Popped {ℓ} (T : Type ℓ) : Type ℓ where
  early : Popped T
  timer : Key → CalendarQueue T → Popped T
  missing : Popped T

abbrev unwrap_or {ℓ} : {A : Type ℓ} → A → Option A → A
unwrap_or d none = d
unwrap_or d (some a) = a

-- A key that does not go first leaves the least key.
first_with-kept : (k : Key) (o : Option Key) → goes_first k o ≡ false → some (first_with k o) ≡ o
unfolding goes_first first_with
first_with-kept k none e = ground (arith, e)
first_with-kept k (some head) e = ground (arith, e)

module _ {ℓ} {T : Type ℓ} (front : T → Option Key) (put drop : Key → T → T) where
  -- A bucket with a new tree, and the calendar after its `update` if that is asked for.
  unfoldable pub replaced : CalendarQueue T → ℕ → T → Bool → CalendarQueue T
  replaced q b tree changes_head = record q {
    trees = at b tree q.trees;
    calendar = if changes_head then update b (front tree) q.calendar else q.calendar;
  }

  -- The order of a timer is the next one of the sequence.
  unfoldable pub numbered : ℕ → CalendarQueue T → Option ℕ → Option (CalendarQueue T)
  numbered deadline q none = none
  numbered deadline q (some order) =
      let b = bucket_of deadline in
      let k : Key = (deadline, q.next_order) in
      let head = key q.calendar.heads (q.calendar.winners (buckets + b)) in
      some (record (replaced q b (put k (q.trees b)) (goes_first k head)) { next_order = order })

  -- Insertion of a timer that is not linked; none is for the failed assertion at the end of the
  -- sequence.
  unfoldable pub insert : ℕ → CalendarQueue T → Option (CalendarQueue T)
  insert deadline q = numbered deadline q (checked_add q.next_order 1)

  -- Removal of a timer that is linked.
  unfoldable pub remove : Key → CalendarQueue T → CalendarQueue T
  remove k q =
      let b = bucket_of k.0 in
      let head = key q.calendar.heads (q.calendar.winners (buckets + b)) in
      replaced q b (drop k (q.trees b)) (same_key head (some k))

  -- The first timer of the bucket that won.
  unfoldable pub take_front : CalendarQueue T → ℕ → Option Key → Popped T
  take_front q b none = missing
  take_front q b (some k) = timer k (replaced q b (drop k (q.trees b)) true)

  unfoldable pub popped : ℕ → CalendarQueue T → Option ℕ → Popped T
  popped now q none = early
  popped now q (some deadline) =
      if ltb now deadline
      then early
      else take_front q (q.calendar.winners 1) (front (q.trees (q.calendar.winners 1)))

  unfoldable pub pop_expired : ℕ → CalendarQueue T → Popped T
  pop_expired now q = popped now q (next_deadline q.calendar)

  module _ (front-put : (k : Key) (t : T) → front (put k t) ≡ some (first_with k (front t)))
      (front-drop : (k : Key) (t : T)
        → same_key (front t) (some k) ≡ false
        → front (drop k t) ≡ front t) where
    -- The calendar fits the trees.
    abbrev pub IsQueue : CalendarQueue T → Type 0
    IsQueue q = IsCalendar (λ b. front (q.trees b)) q.calendar

    bucket_of-lt : (deadline : ℕ) → bucket_of deadline < 256
    unfolding bucket_of
    bucket_of-lt deadline = omega arith

    -- The cached key of a bucket is its first key.
    cached :
        (q : CalendarQueue T) (b : ℕ)
        → b < 256
        → IsQueue q
        → key q.calendar.heads (q.calendar.winners (256 + b)) ≡ front (q.trees b)
    cached q b lt v =
        let (l, t) =
          on_path (λ i. front (q.trees i)) q.calendar.winners q.calendar.heads (256 + b)
            (omega arith) (omega (arith, lt)) v 8 0 refl in
        let place : 256 + b - 256 ≡ b = omega arith in t.1 ∙ ap (λ i. front (q.trees i)) place

    replaced-IsQueue :
        (q : CalendarQueue T) (b : ℕ) (tree : T) (changes_head : Bool)
        → b < 256
        → (changes_head ≡ false → front tree ≡ front (q.trees b))
        → IsQueue q
        → IsQueue (replaced q b tree changes_head)
    unfolding replaced
    replaced-IsQueue q b tree true lt h v =
        let here : at b tree q.trees b ≡ tree = at-same b b tree q.trees refl in
        subst
          (λ (o : Option Key).
            IsCalendar (λ i. front (at b tree q.trees i)) (update b o q.calendar))
          (ap front here)
          (update-IsCalendar (λ i. front (q.trees i)) (λ i. front (at b tree q.trees i)) q.calendar
            b lt (λ j ne. ap front (at-other b j tree q.trees ne)) v)
    replaced-IsQueue q b tree false lt h v =
        IsTree-fronts (λ i. front (q.trees i)) (λ i. front (at b tree q.trees i)) q.calendar.winners
          q.calendar.heads
          (λ j. elim (ℕ_discrete j b) [
            | yes e ↦
                ap front (at-same b j tree q.trees e) ∙ h refl ∙ ap (λ i. front (q.trees i)) (sym e)
            | no ne ↦ ap front (at-other b j tree q.trees ne)
          ])
          8 1 v

    numbered-IsQueue :
        (deadline : ℕ) (q r : CalendarQueue T) (o : Option ℕ)
        → numbered deadline q o ≡ some r
        → IsQueue q
        → IsQueue r
    unfolding numbered
    numbered-IsQueue deadline q r none e v = ground (arith, e)
    numbered-IsQueue deadline q r (some order) e v =
        let b = bucket_of deadline in
        let k : Key = (deadline, q.next_order) in
        let head = key q.calendar.heads (q.calendar.winners (256 + b)) in
        let kept : goes_first k head ≡ false → front (put k (q.trees b)) ≡ front (q.trees b) = λ n.
          front-put k (q.trees b)
          ∙ first_with-kept k (front (q.trees b))
              (ap (goes_first k) (sym (cached q b (bucket_of-lt deadline) v)) ∙ n) in
        let w =
          replaced-IsQueue q b (put k (q.trees b)) (goes_first k head) (bucket_of-lt deadline) kept
            v in
        subst (λ (p : CalendarQueue T). IsCalendar (λ i. front (p.trees i)) p.calendar)
          (ap (unwrap_or r) e) w

    -- Insertion keeps the calendar, also where it leaves the tournament alone.
    pub insert-IsQueue :
        (deadline : ℕ) (q r : CalendarQueue T) → insert deadline q ≡ some r → IsQueue q → IsQueue r
    unfolding insert
    insert-IsQueue deadline q r e v = numbered-IsQueue deadline q r (checked_add q.next_order 1) e v

    -- Removal keeps the calendar.
    pub remove-IsQueue : (k : Key) (q : CalendarQueue T) → IsQueue q → IsQueue (remove k q)
    unfolding remove
    remove-IsQueue k q v =
        let b = bucket_of k.0 in
        replaced-IsQueue q b (drop k (q.trees b)) _ (bucket_of-lt k.0)
          (λ n.
            front-drop k (q.trees b)
              (ap (λ o. same_key o (some k)) (sym (cached q b (bucket_of-lt k.0) v)) ∙ n))
          v

    -- A calendar without timers.
    abbrev pub empty : T → CalendarQueue T
    empty t = record { trees = λ b. t; calendar = new; next_order = 0 }

    pub empty-IsQueue : (t : T) → front t ≡ none → IsQueue (empty t)
    empty-IsQueue t e =
        IsTree-fronts (λ b. none) (λ b. front t) new.winners new.heads (λ j. e) 8 1 new-IsCalendar

    -- How often a tree holds a key: its first key at least once, and a removal takes one away.
    module _ (holds : T → Key → ℕ)
        (front-holds : (k : Key) (t : T) → front t ≡ some k → 1 ≤ holds t k)
        (holds-drop : (k j : Key) (t : T)
          → 1 ≤ holds t k
          → holds t j ≡ (if same_key (some k) (some j) then 1 else 0) + holds (drop k t) j) where
      -- One timer with the key `k` has left bucket `b`, and nothing else has changed in any bucket.
      abbrev pub IsWithout : Key → ℕ → CalendarQueue T → CalendarQueue T → Type 0
      IsWithout k b q r =
          (i : ℕ) (j : Key)
          → holds (q.trees i) j
            ≡ (if i == b && same_key (some k) (some j) then 1 else 0) + holds (r.trees i) j

      -- What `pop_expired` may end with: no timer is due, or the timer is due, the first of its bucket,
      -- no later than any other, and taken out of its bucket, and the calendar fits what is left.
      abbrev pub Expires : ℕ → CalendarQueue T → Popped T → Type 0
      Expires now q early = (b : ℕ) (k : Key) → b < 256 → front (q.trees b) ≡ some k → now < k.0
      Expires now q (timer k r) =
          (k.0 ≤ now)
          × ((b : ℕ) × (front (q.trees b) ≡ some k) × IsWithout k b q r)
          × ((b : ℕ) (other : Key) → b < 256 → front (q.trees b) ≡ some other → k.0 ≤ other.0)
          × IsQueue r
      Expires now q missing = 0 < 0
