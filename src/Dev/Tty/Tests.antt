-- ===== src/Dev/Tty/Tests.antt =====
-- kernel/src/dev/tty.rs at concrete terminals.
use roanix.Prelude.{
  ℕ, zero, suc, ◌≡◌, refl, true, false, List, [], ◌∷◌, ◌>>=◌, length, replicate, ok, arith,
}
use roanix.Dev.Tty.{
  Termios, InputItem, byte, eof, TtyState, is_delimiter, is_control, any_flag, all_flags,
  control_matches,
}
use roanix.Dev.Tty.Settings.{
  standard, at_speed, with_baud, with_code, baud_code, code_in, serial_settings, encode, decode,
}
use roanix.Dev.Tty.Settings.Memory.{IsTermios, decode-encode}
use roanix.Dev.Tty.Settings.Speeds.{plain_settings, serial_settings-with_baud}
use roanix.Dev.Tty.Queue.{
  bytes_in, push_input, reverse, removed_one, erase_last_character, erase_last,
}
use roanix.Dev.Tty.Echo.{queue_echo, echo_input, echo_erased}
use roanix.Dev.Tty.Input.{
  enqueue, erase_key, kill_key, process_input, process_bytes, process_input_byte, is_raw, translate,
  flow, flow_or_key, key, signal_of, send_or_key, canonical_key, plain_key, echo_if,
}
use roanix.Dev.Tty.Counts.{IsTty}
use roanix.Dev.Tty.Counts.Bytes.{process_input-IsTty}
use roanix.Dev.Tty.Input.Typing.{erase_key-typed}
use roanix.Dev.Tty.Input.FullLine.{IsLine, kill_key-end_of_file}
use roanix.Dev.Tty.Read.{returned, read_canonical}
use roanix.Dev.Tty.Read.Lines.{read_canonical-line, read_canonical-lost_eof}

-- A terminal with the standard settings and some input, of which some is ready.
abbrev terminal : List InputItem → ℕ → ℕ → TtyState
terminal input ready bytes = record {
  termios = standard;
  input = input;
  echo = [];
  canonical_ready = ready;
  input_bytes = bytes;
  literal_next = false;
  output_stopped = false;
  interrupted = false;
  hung_up = false;
}

idle-IsTty : IsTty (terminal [] 0 0)
idle-IsTty = record { counted = refl; room = omega arith; echo_room = omega arith }

-- "hi", the erase key, "o" and a carriage return, which becomes a newline.
typed_line :
    let q = (process_input (104 ∷ 105 ∷ 127 ∷ 111 ∷ 13 ∷ []) false (terminal [] 0 0)).state in
    (q.input ≡ byte 104 ∷ byte 111 ∷ byte 10 ∷ [])
    × (q.canonical_ready ≡ 3)
    × (q.echo ≡ 104 ∷ 105 ∷ 8 ∷ 32 ∷ 8 ∷ 111 ∷ 13 ∷ 10 ∷ [])
unfolding standard process_input is_raw process_bytes process_input_byte translate flow flow_or_key
    key signal_of send_or_key canonical_key plain_key echo_if enqueue erase_key erase_last_character
    erase_last reverse removed_one push_input bytes_in queue_echo echo_input echo_erased is_control
    is_delimiter any_flag all_flags control_matches
typed_line = (refl, refl, refl)

process_input-IsTty_example :
    IsTty (process_input (104 ∷ 105 ∷ 127 ∷ 111 ∷ 13 ∷ []) false (terminal [] 0 0)).state
process_input-IsTty_example =
    process_input-IsTty (104 ∷ 105 ∷ 127 ∷ 111 ∷ 13 ∷ []) false (terminal [] 0 0) idle-IsTty

erase_key-typed_example :
    let q = erase_key (enqueue (terminal (byte 104 ∷ []) 0 1) (byte 105)) standard 127 in
    (q.input ≡ byte 104 ∷ []) × (q.input_bytes ≡ 1) × (q.canonical_ready ≡ 0)
unfolding standard any_flag is_delimiter
erase_key-typed_example =
    erase_key-typed (terminal (byte 104 ∷ []) 0 1) 105 127 refl refl refl (omega arith)

read_canonical-line_example :
    read_canonical 80 true (terminal (byte 111 ∷ byte 107 ∷ byte 10 ∷ byte 97 ∷ []) 3 4)
    ≡ (returned (111 ∷ 107 ∷ 10 ∷ []), terminal (byte 97 ∷ []) 0 1)
unfolding standard any_flag is_delimiter
read_canonical-line_example =
    read_canonical-line (111 ∷ 107 ∷ []) 10 80 (byte 97 ∷ []) true
      (terminal (byte 111 ∷ byte 107 ∷ byte 10 ∷ byte 97 ∷ []) 3 4) (refl, (refl, tt)) refl refl
      refl (omega arith) (omega arith)

read_canonical-lost_eof_example :
    ((read_canonical 3 true (terminal (byte 111 ∷ byte 107 ∷ byte 10 ∷ eof ∷ []) 4 3)).0
      ≡ returned (111 ∷ 107 ∷ 10 ∷ []))
    × ((read_canonical 3 true (terminal (byte 111 ∷ byte 107 ∷ byte 10 ∷ eof ∷ []) 4 3)).1.input
        ≡ [])
unfolding standard any_flag is_delimiter
read_canonical-lost_eof_example =
    read_canonical-lost_eof (111 ∷ 107 ∷ []) 10 [] true
      (terminal (byte 111 ∷ byte 107 ∷ byte 10 ∷ eof ∷ []) 4 3) (refl, (refl, tt)) refl refl refl
      (omega arith)

replicate-IsLine :
    (n : ℕ) (t : Termios) (x : InputItem) → is_delimiter x t ≡ false → IsLine t (replicate n x)
replicate-IsLine zero t x e = tt
replicate-IsLine (suc n) t x e = (e, replicate-IsLine n t x e)

length-replicate : (n : ℕ) (x : InputItem) → length (replicate n x) ≡ n
length-replicate zero x = refl
length-replicate (suc n) x = omega (arith, length-replicate n x)

-- A line of 4095 letters that has not ended.
abbrev long_line : TtyState
long_line = terminal (replicate 4095 (byte 97)) 0 4095

kill_key-end_of_file_example :
    let q = kill_key (enqueue long_line (byte 98)) standard in
    (q.input ≡ []) × (read_canonical 80 false q ≡ (returned [], q))
unfolding standard any_flag is_delimiter
kill_key-end_of_file_example =
    kill_key-end_of_file long_line 98 80 false refl (replicate-IsLine 4095 standard (byte 97) refl)
      refl (length-replicate 4095 (byte 97)) refl

serial_settings-with_baud_example :
    serial_settings (at_speed 4098 115200) ≡ ok (plain_settings 115200)
unfolding with_baud with_code baud_code code_in
serial_settings-with_baud_example = serial_settings-with_baud 115200 (at_speed 4098 115200) refl

standard-IsTermios : IsTermios standard
unfolding standard
standard-IsTermios = record {
  input_fits = omega arith;
  output_fits = omega arith;
  control_fits = omega arith;
  local_fits = omega arith;
  control_size = refl;
  input_baud_fits = omega arith;
  output_baud_fits = omega arith;
}

decode-encode_example : (encode standard 60 >>= decode) ≡ ok standard
decode-encode_example = decode-encode standard standard-IsTermios
