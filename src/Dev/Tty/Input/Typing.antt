-- ===== src/Dev/Tty/Input/Typing.antt =====
-- kernel/src/dev/tty.rs: what the editing keys of canonical mode undo.
use Prim.Native.Nat.{ℕ, zero, suc, ◌-◌, ◌<◌, bit_and}
use roanix.Prelude.{
  ◌≡◌, refl, sym, ap, ◌∙◌, Bool, true, false, List, [], ◌∷◌, ◌++◌, append-nil, append_assoc, length,
  length-append, ◌==◌, arith,
}
use roanix.Dev.Tty.{Termios, InputItem, byte, TtyState, is_delimiter, any_flag, icanon, echo_flag}
use roanix.Dev.Tty.Queue.{
  bytes_in, push_input, reverse, removed_one, erase_last, erase_last_character,
}
use roanix.Dev.Tty.Echo.{queue_echo, echo_control, echo_input, echo_erased}
use roanix.Dev.Tty.Input.{enqueue, echo_if, erase_key}

pub reverse-append : (xs ys : List InputItem) → reverse (xs ++ ys) ≡ reverse ys ++ reverse xs
unfolding reverse
reverse-append [] ys = sym (append-nil (reverse ys))
reverse-append (x ∷ xs) ys =
    ap (λ t. t ++ (x ∷ [])) (reverse-append xs ys) ∙ append_assoc (reverse ys) (reverse xs) (x ∷ [])

reverse-reverse : (xs : List InputItem) → reverse (reverse xs) ≡ xs
unfolding reverse
reverse-reverse [] = refl
reverse-reverse (x ∷ xs) =
    reverse-append (reverse xs) (x ∷ []) ∙ ap (λ t. x ∷ t) (reverse-reverse xs)

-- Echoing changes the echo queue alone.
queue_echo-echo :
    (s : TtyState) (bytes : List ℕ)
    → queue_echo s bytes ≡ record s { echo = (queue_echo s bytes).echo }
unfolding queue_echo
queue_echo-echo s bytes = ground arith

echo_input-echo :
    (s : TtyState) (t : Termios) (b : ℕ)
    → echo_input s t b ≡ record s { echo = (echo_input s t b).echo }
unfolding echo_input echo_control queue_echo
echo_input-echo s t b = ground arith

pub echo_erased-echo :
    (n : ℕ) (s : TtyState) → echo_erased n s ≡ record s { echo = (echo_erased n s).echo }
unfolding echo_erased
echo_erased-echo zero s = refl
echo_erased-echo (suc n) s =
    let q = queue_echo s (8 ∷ 32 ∷ 8 ∷ []) in
    echo_erased-echo n q
    ∙ ap (λ (p : TtyState). record p { echo = (echo_erased n q).echo }) (queue_echo-echo s _)

pub echo_if-echo :
    (on : Bool) (s : TtyState) (t : Termios) (b : ℕ)
    → echo_if on s t b ≡ record s { echo = (echo_if on s t b).echo }
unfolding echo_if
echo_if-echo true s t b = echo_input-echo s t b
echo_if-echo false s t b = refl

-- `enqueue` of an item that is no delimiter, with room for more than it.
enqueue-room :
    (s : TtyState) (item : InputItem)
    → any_flag s.termios.local_flags icanon ≡ true
    → is_delimiter item s.termios ≡ false
    → length s.input < 4095
    → enqueue s item ≡ push_input s item
unfolding enqueue push_input
enqueue-room s item c d lt = ground (arith, c, d, lt, length-append s.input (item ∷ []))

-- With room for just it, which makes the queue as a whole count as ready.
pub enqueue-last :
    (s : TtyState) (item : InputItem)
    → any_flag s.termios.local_flags icanon ≡ true
    → is_delimiter item s.termios ≡ false
    → length s.input ≡ 4095
    → enqueue s item ≡ record (push_input s item) { canonical_ready = 4096 }
unfolding enqueue push_input
enqueue-last s item c d e = ground (arith, c, d, e, length-append s.input (item ∷ []))

erase_last-typed :
    (t : Termios) (b : ℕ) (xs : List InputItem)
    → is_delimiter (byte b) t ≡ false
    → (bit_and b 0xc0 == 0x80) ≡ false
    → (erase_last t (byte b ∷ xs)).1 ≡ (1, xs)
unfolding erase_last removed_one
erase_last-typed t b xs d u = ground (arith, d, u)

erase_last_character-typed :
    (t : Termios) (xs : List InputItem) (b : ℕ)
    → is_delimiter (byte b) t ≡ false
    → (bit_and b 0xc0 == 0x80) ≡ false
    → (erase_last_character t (xs ++ (byte b ∷ []))).1 ≡ (1, xs)
unfolding erase_last_character reverse
erase_last_character-typed t xs b d u =
    ap (λ ys. ((erase_last t ys).1.0, reverse (erase_last t ys).1.1))
      (reverse-append xs (byte b ∷ []))
    ∙ ap (λ r. (r.0, reverse r.1)) (erase_last-typed t b (reverse xs) d u)
    ∙ ap (λ ys. (1, ys)) (reverse-reverse xs)

-- The erase key changes the queue, its counter and the echo queue.
erase_key-echo :
    (s : TtyState) (t : Termios) (b : ℕ)
    → erase_key s t b ≡ record s {
      input = (erase_last_character t s.input).1.1;
      input_bytes = s.input_bytes - (erase_last_character t s.input).1.0;
      echo = (erase_key s t b).echo;
    }
unfolding erase_key
erase_key-echo s t b =
    let r = erase_last_character t s.input in
    let q = record s { input = r.1.1; input_bytes = s.input_bytes - r.1.0 } in
    ground (arith, echo_erased-echo r.0 q, echo_if-echo (any_flag t.local_flags echo_flag) q t b)

-- In canonical mode, where the queue has room for two more, the erase key takes back a byte that was
-- just typed, one that ends no line and continues no character: queue, counter and readiness are
-- what they were before the byte.
pub erase_key-typed :
    (s : TtyState) (b c : ℕ)
    → any_flag s.termios.local_flags icanon ≡ true
    → is_delimiter (byte b) s.termios ≡ false
    → (bit_and b 0xc0 == 0x80) ≡ false
    → length s.input < 4095
    → let q = erase_key (enqueue s (byte b)) s.termios c in
      (q.input ≡ s.input)
      × (q.input_bytes ≡ s.input_bytes)
      × (q.canonical_ready ≡ s.canonical_ready)
unfolding push_input bytes_in
erase_key-typed s b c i d u lt =
    let e = enqueue-room s (byte b) i d lt in
    let r = erase_last_character-typed s.termios s.input b d u in
    let k =
      ap (λ p. erase_key p s.termios c) e ∙ erase_key-echo (push_input s (byte b)) s.termios c in
    (
      ap (λ p. p.input) k ∙ ap (λ x. x.1) r,
      ap (λ p. p.input_bytes) k ∙ omega (arith, ap (λ x. x.0) r),
      ap (λ p. p.canonical_ready) k,
    )
