-- ===== src/Dev/Tty/Input/FullLine.antt =====
-- kernel/src/dev/tty.rs: a line that fills the input queue, and the kill key.
use Prim.Native.Nat.{ℕ, zero, suc, ◌-◌}
use roanix.Prelude.{◌≡◌, ◌≢◌, refl, ap, ◌∙◌, Bool, true, false, List, [], ◌∷◌, ◌++◌, length, arith}
use roanix.Dev.Tty.{
  Termios, InputItem, byte, eof, TtyState, is_delimiter, any_flag, all_flags, icanon,
}
use roanix.Dev.Tty.Queue.{
  push_input, pop_input, pop_front, reverse, removed_one, discard_line, discard_current_line,
}
use roanix.Dev.Tty.Input.{enqueue, kill_key}
use roanix.Dev.Tty.Input.Typing.{echo_erased-echo, echo_if-echo, enqueue-last}
use roanix.Dev.Tty.Read.{returned, copy_line, copy_item, front_is_eof, read_line, read_canonical}
use roanix.Dev.Tty.Read.Lines.{read_canonical-ready}

-- No item of the list ends a line.
abbrev pub IsLine : Termios → List InputItem → Type 0
IsLine t [] = Unit {0}
IsLine t (x ∷ xs) = (is_delimiter x t ≡ false) × IsLine t xs

IsLine-append :
    (t : Termios) (xs ys : List InputItem) → IsLine t xs → IsLine t ys → IsLine t (xs ++ ys)
IsLine-append t [] ys p q = q
IsLine-append t (x ∷ xs) ys p q = (p.0, IsLine-append t xs ys p.1 q)

IsLine-reverse : (t : Termios) (xs : List InputItem) → IsLine t xs → IsLine t (reverse xs)
unfolding reverse
IsLine-reverse t [] p = tt
IsLine-reverse t (x ∷ xs) p =
    IsLine-append t (reverse xs) (x ∷ []) (IsLine-reverse t xs p.1) (p.0, tt)

-- A line is discarded as a whole.
discard_line-IsLine : (t : Termios) (xs : List InputItem) → IsLine t xs → (discard_line t xs).1 ≡ []
unfolding discard_line removed_one is_delimiter
discard_line-IsLine t [] p = refl
discard_line-IsLine t (eof ∷ xs) p = ground (arith, p.0)
discard_line-IsLine t (byte b ∷ xs) p = ground (arith, p.0, discard_line-IsLine t xs p.1)

discard_current_line-IsLine :
    (t : Termios) (xs : List InputItem) → IsLine t xs → (discard_current_line t xs).1 ≡ []
unfolding discard_current_line reverse
discard_current_line-IsLine t xs p =
    ap reverse (discard_line-IsLine t (reverse xs) (IsLine-reverse t xs p))

-- The kill key changes the queue, its counter and the echo queue.
kill_key-echo :
    (s : TtyState) (t : Termios)
    → kill_key s t ≡ record s {
      input = (discard_current_line t s.input).1;
      input_bytes = s.input_bytes - (discard_current_line t s.input).0;
      echo = (kill_key s t).echo;
    }
unfolding kill_key
kill_key-echo s t =
    let r = discard_current_line t s.input in
    let q = record s { input = r.1; input_bytes = s.input_bytes - r.0 } in
    ground (arith, echo_erased-echo r.0 q, echo_if-echo (all_flags t.local_flags 40) q t 10)

copy_line-empty : (n : ℕ) (s : TtyState) → s.input ≡ [] → copy_line n s ≡ ([], s)
unfolding copy_line copy_item pop_input pop_front
copy_line-empty zero s e = refl
copy_line-empty (suc n) s e = ap (λ xs. copy_item (copy_line n) s (pop_front xs s)) e

read_line-empty : (n : ℕ) (s : TtyState) → s.input ≡ [] → read_line n s ≡ ([], s)
unfolding read_line front_is_eof
read_line-empty n s e = ground (arith, copy_line-empty n s e, ap front_is_eof e)

-- Reading an empty queue that counts as ready returns no byte and changes nothing.
read_canonical-empty :
    (n : ℕ) (nonblocking : Bool) (s : TtyState)
    → s.input ≡ []
    → s.interrupted ≡ false
    → s.canonical_ready ≢ 0
    → read_canonical n nonblocking s ≡ (returned [], s)
read_canonical-empty n nonblocking s e i c =
    let q = read_line-empty n s e in
    read_canonical-ready n nonblocking s i c ∙ ap (λ (r : List ℕ × TtyState). (returned r.0, r.1)) q

-- In canonical mode, let the queue hold 4095 items of a line that has not ended, and one more byte
-- of it be typed and then the kill key, with no interruption pending. The queue is empty then, but every read from it returns no
-- byte, which is an end of file, and leaves the state as it was, so that the next read does the same.
pub kill_key-end_of_file :
    (s : TtyState) (b n : ℕ) (nonblocking : Bool)
    → any_flag s.termios.local_flags icanon ≡ true
    → IsLine s.termios s.input
    → is_delimiter (byte b) s.termios ≡ false
    → length s.input ≡ 4095
    → s.interrupted ≡ false
    → let q = kill_key (enqueue s (byte b)) s.termios in
      (q.input ≡ []) × (read_canonical n nonblocking q ≡ (returned [], q))
unfolding push_input
kill_key-end_of_file s b n nonblocking c p d e i =
    let t = s.termios in
    let q = kill_key (enqueue s (byte b)) t in
    let k =
      ap (λ r. kill_key r t) (enqueue-last s (byte b) c d e)
      ∙ kill_key-echo (record (push_input s (byte b)) { canonical_ready = 4096 }) t in
    let no_input : q.input ≡ [] =
      ap (λ r. r.input) k
      ∙ discard_current_line-IsLine t (s.input ++ byte b ∷ [])
          (IsLine-append t s.input (byte b ∷ []) p (d, tt)) in
    let ready : q.canonical_ready ≡ 4096 = ap (λ r. r.canonical_ready) k in
    (
      no_input,
      read_canonical-empty n nonblocking q no_input (ap (λ r. r.interrupted) k ∙ i)
          (omega (arith, ready)),
    )
