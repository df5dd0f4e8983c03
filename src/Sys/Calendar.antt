-- ===== src/Sys/Calendar.antt =====
-- kernel/src/sys/clock.rs: the calendar queue of callouts. An array is a function of its index. A
-- bucket is an ordered tree of the library, a parameter with its first key and what the code does to
-- it, named by its documentation.
pub mod Path
pub mod Tournament
pub mod Update
pub mod Earliest
pub mod Queue
mod Tests
use Prim.Native.Nat.{bit_and}
use roanix.Prelude.{
  ℕ, zero, suc, ◌+◌, ◌*◌, ◌/◌, ◌%◌, Bool, true, false, not, ◌&&◌, ◌||◌, Option, none, some, ltb,
  leb, ◌==◌, if◌then◌else◌,
}

-- A key is a deadline and an order.
abbrev pub Key : Type 0
Key = ℕ × ℕ

abbrev pub buckets : ℕ
buckets = 256

-- `EMPTY`
abbrev pub no_bucket : ℕ
no_bucket = 256

abbrev pub bucket_width_ns : ℕ
bucket_width_ns = 1000000

-- A write to an array.
unfoldable pub at {ℓ} : {A : Type ℓ} → ℕ → A → (ℕ → A) → ℕ → A
at i v f j = if j == i then v else f j

-- `<=` and `==` on keys
unfoldable pub key_le : Key → Key → Bool
key_le a b = ltb a.0 b.0 || (a.0 == b.0 && leb a.1 b.1)

unfoldable pub same_key : Option Key → Option Key → Bool
same_key none none = true
same_key (some a) (some b) = a.0 == b.0 && a.1 == b.1
same_key none (some b) = false
same_key (some a) none = false

unfoldable pub bucket_of : ℕ → ℕ
bucket_of deadline_ns = deadline_ns / bucket_width_ns % buckets

-- The tournament beside the buckets.
pub record Calendar : Type 0 where
  pub winners : ℕ → ℕ
  pub heads : ℕ → Key

unfoldable pub key : (ℕ → Key) → ℕ → Option Key
key heads bucket = if bucket == no_bucket then none else some (heads bucket)

-- The winner of two subtrees by their keys.
unfoldable pub won : Option Key → Option Key → ℕ → ℕ → ℕ
won none kb a b = b
won (some ka) none a b = a
won (some ka) (some kb) a b = if key_le ka kb then a else b

unfoldable pub better : (ℕ → Key) → ℕ → ℕ → ℕ
better heads a b = won (key heads a) (key heads b) a b

-- The loop from a node to the root; 8 rounds are enough from a leaf.
unfoldable pub climb : ℕ → ℕ → (ℕ → Key) → (ℕ → ℕ) → ℕ → ℕ
climb zero node heads winners = winners
climb (suc fuel) node heads winners =
    let n = node / 2 in
    let rest =
      climb fuel n heads (at n (better heads (winners (n * 2)) (winners (n * 2 + 1))) winners) in
    if leb node 1 then winners else rest

-- The leaf and the head of a bucket by its first key.
unfoldable pub leaf_of : ℕ → Option Key → ℕ
leaf_of bucket none = no_bucket
leaf_of bucket (some k) = bucket

unfoldable pub heads_with : ℕ → Option Key → (ℕ → Key) → ℕ → Key
heads_with bucket none heads = heads
heads_with bucket (some k) heads = at bucket k heads

-- `update`, where `head` is the first key of the bucket.
unfoldable pub update : ℕ → Option Key → Calendar → Calendar
update bucket head c =
    let node = buckets + bucket in
    let heads = heads_with bucket head c.heads in
    if same_key head (key c.heads (c.winners node)) then c else record {
      heads = heads;
      winners = climb 8 node heads (at node (leaf_of bucket head) c.winners);
    }

unfoldable pub deadline_of : Option Key → Option ℕ
deadline_of none = none
deadline_of (some k) = some (k.0)

unfoldable pub next_deadline : Calendar → Option ℕ
next_deadline c = deadline_of (key c.heads (c.winners 1))

unfoldable pub new : Calendar
new = record { winners = λ n. no_bucket; heads = λ b. (0, 0) }
