-- ===== src/Dev/Tty/Counts.antt =====
-- kernel/src/dev/tty.rs: the counter and the bounds of a terminal's queues, under every byte typed.
pub mod Erasing
pub mod Keys
pub mod Bytes
use Prim.Native.Nat.{ℕ, zero, suc, ◌+◌, ◌-◌, ◌≤◌}
use roanix.Prelude.{
  ◌≡◌, refl, Bool, true, false, Option, none, some, List, [], ◌∷◌, ◌++◌, length, drop,
  length-append, length-drop, arith, zero-add, add-zero,
}
use roanix.Dev.Tty.{Termios, InputItem, byte, eof, TtyState, any_flag, flusho, echo_capacity}
use roanix.Dev.Tty.Queue.{bytes_in, push_input, clear_input, reverse}
use roanix.Dev.Tty.Echo.{queue_echo, echo_control, echo_input, echo_erased, echo_items}

-- The number of bytes in a queue; `Eof` marks are none.
abbrev pub count : List InputItem → ℕ
count [] = 0
count (x ∷ xs) = bytes_in x + count xs

-- The counter is right, and neither queue is longer than its capacity.
pub record IsTty (s : TtyState) : Type 0 where
  pub counted : s.input_bytes ≡ count s.input
  pub room : length s.input ≤ 4096
  pub echo_room : length s.echo ≤ 4096

pub count-append : (xs ys : List InputItem) → count (xs ++ ys) ≡ count xs + count ys
count-append [] ys = omega arith
count-append (x ∷ xs) ys = omega (arith, count-append xs ys)

pub count-reverse : (xs : List InputItem) → count (reverse xs) ≡ count xs
unfolding reverse
count-reverse [] = refl
count-reverse (x ∷ xs) = omega (arith, count-append (reverse xs) (x ∷ []), count-reverse xs)

pub length-reverse : (xs : List InputItem) → length (reverse xs) ≡ length xs
unfolding reverse
length-reverse [] = refl
length-reverse (x ∷ xs) = omega (arith, length-append (reverse xs) (x ∷ []), length-reverse xs)

pub queue_echo-IsTty :
    (s : TtyState) (bytes : List ℕ) → length bytes ≤ 3 → IsTty s → IsTty (queue_echo s bytes)
unfolding queue_echo
queue_echo-IsTty s bytes short h = ground (
  arith,
  h.counted,
  h.room,
  h.echo_room,
  length-append (drop (length s.echo + length bytes - echo_capacity) s.echo) bytes,
  length-drop (length s.echo + length bytes - echo_capacity) s.echo,
)

echo_control-IsTty : (s : TtyState) (b : ℕ) → IsTty s → IsTty (echo_control s b)
unfolding echo_control
echo_control-IsTty s b h = queue_echo-IsTty s _ (omega arith) h

pub echo_input-IsTty : (s : TtyState) (t : Termios) (b : ℕ) → IsTty s → IsTty (echo_input s t b)
unfolding echo_input
echo_input-IsTty s t b h = ground (
  arith,
  h,
  echo_control-IsTty s b h,
  queue_echo-IsTty s (13 ∷ 10 ∷ []) (omega arith) h,
  queue_echo-IsTty s (10 ∷ []) (omega arith) h,
  queue_echo-IsTty s (b ∷ []) (omega arith) h,
)

pub echo_erased-IsTty : (n : ℕ) (s : TtyState) → IsTty s → IsTty (echo_erased n s)
unfolding echo_erased
echo_erased-IsTty zero s h = h
echo_erased-IsTty (suc n) s h =
    echo_erased-IsTty n _ (queue_echo-IsTty s (8 ∷ 32 ∷ 8 ∷ []) (omega arith) h)

pub echo_items-IsTty :
    (t : Termios) (xs : List InputItem) (s : TtyState) → IsTty s → IsTty (echo_items t xs s)
unfolding echo_items
echo_items-IsTty t [] s h = h
echo_items-IsTty t (byte b ∷ xs) s h = echo_items-IsTty t xs _ (echo_input-IsTty s t b h)
echo_items-IsTty t (eof ∷ xs) s h = echo_items-IsTty t xs s h
