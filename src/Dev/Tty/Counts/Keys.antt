-- ===== src/Dev/Tty/Counts/Keys.antt =====
-- kernel/src/dev/tty.rs: every key keeps the counter and the bounds of a terminal's queues.
use Prim.Native.Nat.{ℕ, ◌-◌, ◌≤◌}
use roanix.Prelude.{◌≡◌, refl, ap, Bool, true, false, List, [], ◌∷◌, length, length-append, arith}
use roanix.Dev.Tty.{Termios, InputItem, byte, eof, TtyState, any_flag, all_flags, echo_flag}
use roanix.Dev.Tty.Queue.{
  Removed, push_input, reverse, discard_current_line, erase_last_character, erase_word,
  current_line,
}
use roanix.Dev.Tty.Input.{
  drop_last, pop_back, enqueue, echo_if, literal, quote_next, erase_key, kill_key, word_key,
  reprint_key, plain_key, canonical_key,
}
use roanix.Dev.Tty.Counts.{
  count, IsTty, count-append, count-reverse, length-reverse, queue_echo-IsTty, echo_input-IsTty,
  echo_erased-IsTty, echo_items-IsTty,
}
use roanix.Dev.Tty.Counts.Erasing.{
  IsRemoval, discard_current_line-IsRemoval, erase_last_character-IsRemoval, erase_word-IsRemoval,
}

pub echo_if-IsTty :
    (on : Bool) (s : TtyState) (t : Termios) (b : ℕ) → IsTty s → IsTty (echo_if on s t b)
unfolding echo_if
echo_if-IsTty true s t b h = echo_input-IsTty s t b h
echo_if-IsTty false s t b h = h

drop_last-counted :
    (xs : List InputItem) (s : TtyState)
    → reverse s.input ≡ xs
    → IsTty s
    → ((drop_last xs s).input_bytes ≡ count (drop_last xs s).input)
      × (length (drop_last xs s).input ≤ length s.input - 1)
      × ((drop_last xs s).echo ≡ s.echo)
unfolding drop_last
drop_last-counted [] s e h = (h.counted, omega (arith, ap length e, length-reverse s.input), refl)
drop_last-counted (item ∷ rest) s e h = (
  omega (arith, h.counted, ap count e, count-reverse s.input, count-reverse rest),
  omega (arith, ap length e, length-reverse s.input, length-reverse rest),
  refl,
)

push_input-IsTty :
    (s : TtyState) (item : InputItem)
    → s.input_bytes ≡ count s.input
    → length s.input ≤ 4095
    → length s.echo ≤ 4096
    → IsTty (push_input s item)
unfolding push_input
push_input-IsTty s item c r e = record {
  counted = omega (arith, c, count-append s.input (item ∷ []));
  room = omega (arith, r, length-append s.input (item ∷ []));
  echo_room = e;
}

enqueue-IsTty : (s : TtyState) (item : InputItem) → IsTty s → IsTty (enqueue s item)
unfolding enqueue push_input pop_back
enqueue-IsTty s item h = ground (
  arith,
  h,
  h.counted,
  h.room,
  h.echo_room,
  drop_last-counted (reverse s.input) s refl h,
  queue_echo-IsTty s (7 ∷ []) (omega arith) h,
  push_input-IsTty (pop_back s) item,
  push_input-IsTty s item,
)

-- The state with what an editing key leaves of the queue.
after_removal :
    (s : TtyState) (r : Removed)
    → IsRemoval s.input r
    → IsTty s
    → IsTty (record s { input = r.1; input_bytes = s.input_bytes - r.0 })
after_removal s r e h = record {
  counted = omega (arith, h.counted, e.0);
  room = omega (arith, h.room, e.1);
  echo_room = h.echo_room;
}

erase_key-IsTty : (s : TtyState) (t : Termios) (b : ℕ) → IsTty s → IsTty (erase_key s t b)
unfolding erase_key
erase_key-IsTty s t b h =
    let r = erase_last_character t s.input in
    let e = erase_last_character-IsRemoval t s.input in
    let q = after_removal s r.1 e h in
    ground (
      arith,
      h,
      h.counted,
      h.room,
      h.echo_room,
      e,
      q,
      echo_erased-IsTty r.0 _ q,
      echo_if-IsTty (any_flag t.local_flags echo_flag) _ t b q,
    )

kill_key-IsTty : (s : TtyState) (t : Termios) → IsTty s → IsTty (kill_key s t)
unfolding kill_key
kill_key-IsTty s t h =
    let r = discard_current_line t s.input in
    let q = after_removal s r (discard_current_line-IsRemoval t s.input) h in
    ground
      (arith, q, echo_erased-IsTty r.0 _ q, echo_if-IsTty (all_flags t.local_flags 40) _ t 10 q)

word_key-IsTty : (s : TtyState) (t : Termios) → IsTty s → IsTty (word_key s t)
unfolding word_key
word_key-IsTty s t h =
    let r = erase_word t s.input in
    let q = after_removal s r (erase_word-IsRemoval t s.input) h in
    ground (arith, q, echo_erased-IsTty r.0 _ q)

reprint_key-IsTty : (s : TtyState) (t : Termios) (b : ℕ) → IsTty s → IsTty (reprint_key s t b)
unfolding reprint_key
reprint_key-IsTty s t b h =
    echo_items-IsTty t (current_line t s.input) _
      (echo_input-IsTty _ t 10 (echo_input-IsTty s t b h))

pub plain_key-IsTty : (s : TtyState) (t : Termios) (b : ℕ) → IsTty s → IsTty (plain_key s t b)
unfolding plain_key
plain_key-IsTty s t b h = echo_if-IsTty _ _ t b (enqueue-IsTty s (byte b) h)

pub canonical_key-IsTty :
    (s : TtyState) (t : Termios) (b : ℕ) → IsTty s → IsTty (canonical_key s t b)
unfolding canonical_key
canonical_key-IsTty s t b h = ground (
  arith,
  erase_key-IsTty s t b h,
  kill_key-IsTty s t h,
  word_key-IsTty s t h,
  reprint_key-IsTty s t b h,
  enqueue-IsTty s eof h,
  plain_key-IsTty s t b h,
)

-- A state with the same queues keeps the invariant.
pub same_queues :
    (s q : TtyState)
    → q.input ≡ s.input
    → q.input_bytes ≡ s.input_bytes
    → q.echo ≡ s.echo
    → IsTty s
    → IsTty q
same_queues s q i b e h = record {
  counted = omega (arith, h.counted, ap count i, b);
  room = omega (arith, h.room, ap length i);
  echo_room = omega (arith, h.echo_room, ap length e);
}

pub literal-IsTty : (s : TtyState) (t : Termios) (b : ℕ) → IsTty s → IsTty (literal s t b)
unfolding literal
literal-IsTty s t b h =
    echo_input-IsTty _ t b (enqueue-IsTty _ (byte b) (same_queues s _ refl refl refl h))

pub quote_next-IsTty : (s : TtyState) (t : Termios) (b : ℕ) → IsTty s → IsTty (quote_next s t b)
unfolding quote_next
quote_next-IsTty s t b h =
    let q = same_queues s (record s { literal_next = true }) refl refl refl h in
    ground (
      arith,
      q,
      queue_echo-IsTty _ (94 ∷ 8 ∷ []) (omega arith) q,
      echo_if-IsTty (any_flag t.local_flags echo_flag) _ t b q,
    )
