-- ===== src/Dev/Tty/Queue.antt =====
-- kernel/src/dev/tty.rs: the input queue, its counters, and the editing of its last line.
use Prim.Native.Nat.{bit_and}
use roanix.Prelude.{
  ℕ, suc, ◌+◌, ◌-◌, Bool, true, false, not, ◌&&◌, ◌||◌, Option, none, some, List, [], ◌∷◌, ◌++◌,
  length, ◌==◌, if◌then◌else◌,
}
use roanix.Dev.Tty.{
  Termios, InputItem, byte, eof, TtyState, is_delimiter, is_control, any_flag, iutf8, echoctl,
  icanon,
}

-- What `matches!(item, InputItem::Byte(_))` adds to a count of bytes.
unfoldable pub bytes_in : InputItem → ℕ
bytes_in (byte b) = 1
bytes_in eof = 0

unfoldable pub push_input : TtyState → InputItem → TtyState
push_input s item = record s {
  input = s.input ++ (item ∷ []);
  input_bytes = s.input_bytes + bytes_in item;
}

-- The first item, and the state without it.
unfoldable pub pop_front : List InputItem → TtyState → Option (InputItem × TtyState)
pop_front [] s = none
pop_front (item ∷ rest) s = some (
  item,
  record s {
    input = rest;
    canonical_ready = s.canonical_ready - 1;
    input_bytes = s.input_bytes - bytes_in item;
  },
)

unfoldable pub pop_input : TtyState → Option (InputItem × TtyState)
pop_input s = pop_front s.input s

unfoldable pub clear_input : TtyState → TtyState
clear_input s = record s { input = []; canonical_ready = 0; input_bytes = 0; literal_next = false }

-- The queue from its back on.
unfoldable pub reverse : List InputItem → List InputItem
reverse [] = []
reverse (x ∷ xs) = reverse xs ++ (x ∷ [])

-- The loops below take the queue from its back on and return the number of bytes removed and the
-- rest of it.
abbrev pub Removed : Type 0
Removed = ℕ × List InputItem

unfoldable pub removed_one : Removed → Removed
removed_one r = (suc r.0, r.1)

unfoldable pub discard_line : Termios → List InputItem → Removed
discard_line t [] = (0, [])
discard_line t (eof ∷ xs) = (0, eof ∷ xs)
discard_line t (byte b ∷ xs) = elim (is_delimiter (byte b) t) [
  | true ↦ (0, byte b ∷ xs)
  | false ↦ removed_one (discard_line t xs)
]

unfoldable pub discard_current_line : Termios → List InputItem → Removed
discard_current_line t input = let r = discard_line t (reverse input) in (r.0, reverse r.1)

-- The loop over the bytes of a UTF-8 sequence behind its last one: the byte it ends at as well.
unfoldable pub erase_sequence : Termios → ℕ → List InputItem → ℕ × Removed
erase_sequence t last [] = (last, (0, []))
erase_sequence t last (eof ∷ xs) = (last, (0, eof ∷ xs))
erase_sequence t last (byte b ∷ xs) = elim (is_delimiter (byte b) t) [
  | true ↦ (last, (0, byte b ∷ xs))
  | false ↦ elim (bit_and b 0xc0 == 0x80) [
    | false ↦ (b, (1, xs))
    | true ↦ let r = erase_sequence t b xs in (r.0, removed_one r.1)
  ]
]

-- The bytes erased, the columns they took, and the rest, from the back on.
unfoldable pub erase_last : Termios → List InputItem → ℕ × Removed
erase_last t [] = (0, (0, []))
erase_last t (eof ∷ xs) = (0, (0, eof ∷ xs))
erase_last t (byte b ∷ xs) =
    if is_delimiter (byte b) t
    then (0, (0, byte b ∷ xs))
    else (let r =
          if any_flag t.input_flags iutf8 && bit_and b 0xc0 == 0x80
          then erase_sequence t b xs
          else (b, (0, xs)) in
        (if is_control r.0 && any_flag t.local_flags echoctl then 2 else 1, removed_one r.1))

unfoldable pub erase_last_character : Termios → List InputItem → ℕ × Removed
erase_last_character t input = let r = erase_last t (reverse input) in (r.0, (r.1.0, reverse r.1.1))

-- `u8::is_ascii_whitespace`
unfoldable pub is_whitespace : ℕ → Bool
is_whitespace b = b == 9 || b == 10 || b == 12 || b == 13 || b == 32

-- A loop of `erase_word`, over the bytes that are, or are not, white space.
unfoldable pub erase_while : Termios → Bool → List InputItem → Removed
erase_while t space [] = (0, [])
erase_while t space (eof ∷ xs) = (0, eof ∷ xs)
erase_while t space (byte b ∷ xs) =
    elim (not (is_delimiter (byte b) t)
      && (if space then is_whitespace b else not (is_whitespace b))) [
        | true ↦ removed_one (erase_while t space xs)
        | false ↦ (0, byte b ∷ xs)
      ]

unfoldable pub erase_word : Termios → List InputItem → Removed
erase_word t input =
    let r = erase_while t true (reverse input) in
    let q = erase_while t false r.1 in (r.0 + q.0, reverse q.1)

-- `current_line_start`, by the bytes of the current line.
unfoldable pub current_line : Termios → List InputItem → List InputItem
current_line t [] = []
current_line t (x ∷ xs) =
    let rest = current_line t xs in
    if has_delimiter xs then rest else if is_delimiter x t then xs else x ∷ xs
  where
    has_delimiter : List InputItem → Bool
    has_delimiter [] = false
    has_delimiter (y ∷ ys) = is_delimiter y t || has_delimiter ys

-- `recalculate_canonical_ready` in canonical mode: the index behind the last delimiter.
unfoldable pub ready_after : Termios → List InputItem → ℕ → ℕ → ℕ
ready_after t [] index ready = ready
ready_after t (x ∷ xs) index ready =
    ready_after t xs (index + 1) (if is_delimiter x t then index + 1 else ready)

unfoldable pub recalculate_canonical_ready : TtyState → TtyState
recalculate_canonical_ready s =
    if not (any_flag s.termios.local_flags icanon)
    then record s { canonical_ready = length s.input }
    else record s { canonical_ready = ready_after s.termios s.input 0 0 }
