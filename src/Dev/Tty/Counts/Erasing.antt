-- ===== src/Dev/Tty/Counts/Erasing.antt =====
-- kernel/src/dev/tty.rs: what the editing keys remove from the input queue.
use Prim.Native.Nat.{ℕ, ◌+◌, ◌≤◌}
use roanix.Prelude.{◌≡◌, Bool, true, false, List, [], ◌∷◌, length, arith}
use roanix.Dev.Tty.{Termios, InputItem, byte, eof}
use roanix.Dev.Tty.Queue.{
  Removed, removed_one, reverse, discard_line, discard_current_line, erase_sequence, erase_last,
  erase_last_character, erase_while, erase_word, bytes_in,
}
use roanix.Dev.Tty.Counts.{count, count-reverse, length-reverse}

-- What is removed and what is left make up the queue.
abbrev pub IsRemoval : List InputItem → Removed → Type 0
IsRemoval xs r = (r.0 + count r.1 ≡ count xs) × (length r.1 ≤ length xs)

discard_line-IsRemoval : (t : Termios) (xs : List InputItem) → IsRemoval xs (discard_line t xs)
unfolding discard_line removed_one bytes_in
discard_line-IsRemoval t [] = ground arith
discard_line-IsRemoval t (eof ∷ xs) = ground arith
discard_line-IsRemoval t (byte b ∷ xs) = ground (arith, discard_line-IsRemoval t xs)

erase_sequence-IsRemoval :
    (t : Termios) (last : ℕ) (xs : List InputItem) → IsRemoval xs (erase_sequence t last xs).1
unfolding erase_sequence removed_one bytes_in
erase_sequence-IsRemoval t last [] = ground arith
erase_sequence-IsRemoval t last (eof ∷ xs) = ground arith
erase_sequence-IsRemoval t last (byte b ∷ xs) = ground (arith, erase_sequence-IsRemoval t b xs)

erase_last-IsRemoval : (t : Termios) (xs : List InputItem) → IsRemoval xs (erase_last t xs).1
unfolding erase_last removed_one bytes_in
erase_last-IsRemoval t [] = ground arith
erase_last-IsRemoval t (eof ∷ xs) = ground arith
erase_last-IsRemoval t (byte b ∷ xs) = ground (arith, erase_sequence-IsRemoval t b xs)

erase_while-IsRemoval :
    (t : Termios) (space : Bool) (xs : List InputItem) → IsRemoval xs (erase_while t space xs)
unfolding erase_while removed_one bytes_in
erase_while-IsRemoval t space [] = ground arith
erase_while-IsRemoval t space (eof ∷ xs) = ground arith
erase_while-IsRemoval t space (byte b ∷ xs) = ground (arith, erase_while-IsRemoval t space xs)

IsRemoval-reverse :
    (xs : List InputItem) (r : Removed) → IsRemoval (reverse xs) r → IsRemoval xs (r.0, reverse r.1)
IsRemoval-reverse xs r h =
    omega
      (arith, h.0, h.1, count-reverse xs, length-reverse xs, count-reverse r.1, length-reverse r.1)

pub discard_current_line-IsRemoval :
    (t : Termios) (xs : List InputItem) → IsRemoval xs (discard_current_line t xs)
unfolding discard_current_line
discard_current_line-IsRemoval t xs =
    IsRemoval-reverse xs (discard_line t (reverse xs)) (discard_line-IsRemoval t (reverse xs))

pub erase_last_character-IsRemoval :
    (t : Termios) (xs : List InputItem) → IsRemoval xs (erase_last_character t xs).1
unfolding erase_last_character
erase_last_character-IsRemoval t xs =
    IsRemoval-reverse xs (erase_last t (reverse xs)).1 (erase_last-IsRemoval t (reverse xs))

pub erase_word-IsRemoval : (t : Termios) (xs : List InputItem) → IsRemoval xs (erase_word t xs)
unfolding erase_word
erase_word-IsRemoval t xs =
    let r = erase_while t true (reverse xs) in
    let a = erase_while-IsRemoval t true (reverse xs) in
    let b = erase_while-IsRemoval t false r.1 in
    IsRemoval-reverse xs (r.0 + (erase_while t false r.1).0, (erase_while t false r.1).1)
      (omega (arith, a.0, b.0), omega (arith, a.1, b.1))
