-- ===== src/Dev/Tty/Read.antt =====
-- kernel/src/dev/tty.rs: a round of `read_canonical`, from taking the lock on.
pub mod Lines
use Prim.Native.Nat.{ℕ, zero, suc, ◌+◌, ◌-◌}
use roanix.Prelude.{
  Bool, true, false, not, ◌&&◌, Option, none, some, List, [], ◌∷◌, length, ◌==◌, if◌then◌else◌,
}
use roanix.Dev.Tty.{InputItem, byte, eof, TtyState, is_delimiter}
use roanix.Dev.Tty.Queue.{pop_input}

-- How the round ends: `Err(Interrupted)`, `Ok` with the bytes written to the buffer,
-- `Err(WouldBlock)`, or a wait for the event of new input, which it has reset.
pub data Round : Type 0 where
  was_interrupted : Round
  returned : List ℕ → Round
  would_block : Round
  waits : Round

-- The body of the loop behind `pop_input`, with the loop that goes on.
unfoldable pub copy_item :
    (TtyState → List ℕ × TtyState) → TtyState → Option (InputItem × TtyState) → List ℕ × TtyState
copy_item next s none = ([], s)
copy_item next s (some (eof, q)) = ([], q)
copy_item next s (some (byte b, q)) =
    if is_delimiter (byte b) q.termios then (b ∷ [], q) else (let r = next q in (b ∷ r.0, r.1))

-- The loop that fills what is left of the buffer.
unfoldable pub copy_line : ℕ → TtyState → List ℕ × TtyState
copy_line zero s = ([], s)
copy_line (suc n) s = copy_item (copy_line n) s (pop_input s)

unfoldable pub front_is_eof : List InputItem → Bool
front_is_eof [] = false
front_is_eof (eof ∷ xs) = true
front_is_eof (byte b ∷ xs) = false

-- `let _ = pop_input(&mut state)`
unfoldable pub popped : TtyState → TtyState
popped s = elim (pop_input s) [ none ↦ s | some (item, q) ↦ q ]

-- A line is copied; an end of file behind a full buffer is taken as well.
unfoldable pub read_line : ℕ → TtyState → List ℕ × TtyState
read_line n s =
    let r = copy_line n s in
    if length r.0 == n && front_is_eof r.1.input && not (r.1.canonical_ready == 0)
    then (r.0, popped r.1)
    else r

unfoldable pub read_canonical : ℕ → Bool → TtyState → Round × TtyState
read_canonical n nonblocking s =
    if s.interrupted
    then (was_interrupted, record s { interrupted = false })
    else if not (s.canonical_ready == 0)
    then (let r = read_line n s in (returned r.0, r.1))
    else if s.hung_up
    then (returned [], s)
    else if nonblocking
    then (would_block, s)
    else (waits, s)
