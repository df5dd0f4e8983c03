-- ===== src/Dev/Tty/Echo.antt =====
-- kernel/src/dev/tty.rs: the echo queue.
use Prim.Native.Nat.{bit_xor}
use roanix.Prelude.{
  ℕ, zero, suc, ◌+◌, ◌-◌, ◌%◌, not, ◌&&◌, ◌||◌, List, [], ◌∷◌, ◌++◌, length, drop, ◌==◌,
  if◌then◌else◌,
}
use roanix.Dev.Tty.{
  Termios, InputItem, byte, eof, TtyState, is_control, any_flag, all_flags, flusho, echoctl,
  echo_capacity,
}

unfoldable pub queue_echo : TtyState → List ℕ → TtyState
queue_echo s bytes =
    if any_flag s.termios.local_flags flusho
    then s
    else record s { echo = drop (length s.echo + length bytes - echo_capacity) s.echo ++ bytes }

unfoldable pub echo_control : TtyState → ℕ → TtyState
echo_control s b = queue_echo s (94 ∷ (if b == 127 then 63 else bit_xor b 64) ∷ [])

unfoldable pub echo_input : TtyState → Termios → ℕ → TtyState
echo_input s t b =
    if b == 10
    then queue_echo s (if all_flags t.output_flags 5 then 13 ∷ 10 ∷ [] else 10 ∷ [])
    else if is_control b && any_flag t.local_flags echoctl
    then echo_control s b
    else queue_echo s (b ∷ [])

-- The echo of one erased column, `n` times.
unfoldable pub echo_erased : ℕ → TtyState → TtyState
echo_erased zero s = s
echo_erased (suc n) s = echo_erased n (queue_echo s (8 ∷ 32 ∷ 8 ∷ []))

-- The echo of the bytes among some items.
unfoldable pub echo_items : Termios → List InputItem → TtyState → TtyState
echo_items t [] s = s
echo_items t (byte b ∷ xs) s = echo_items t xs (echo_input s t b)
echo_items t (eof ∷ xs) s = echo_items t xs s

-- `update_output_column`
unfoldable pub update_output_column : ℕ → ℕ → ℕ
update_output_column column b =
    if b == 13 || b == 10
    then 0
    else if b == 8
    then column - 1
    else if b == 9
    then next_stop
    else if not (is_control b)
    then column + 1
    else column
  where
    next_stop : ℕ
    next_stop = column + (8 - column % 8)
