-- ===== src/Dev/Tty/Input.antt =====
-- kernel/src/dev/tty.rs: `process_input_byte` and its callers. The locked part of the code is a
-- function of the state; what it asks of the rest of the kernel is in the result.
pub mod Typing
pub mod FullLine
use Prim.Native.Nat.{bit_or}
use roanix.Prelude.{
  ℕ, zero, suc, ◌+◌, ◌-◌, ◌%◌, ◌^◌, min, Bool, true, false, not, ◌&&◌, ◌||◌, Option, none, some,
  List, [], ◌∷◌, ◌++◌, map, length, take, drop, leb, ◌==◌, if◌then◌else◌,
}
use roanix.Dev.Tty.{
  Termios, InputItem, byte, eof, TtyState, is_delimiter, any_flag, all_flags, without,
  control_matches, input_capacity, istrip, inlcr, igncr, icrnl, ixon, ixany, imaxbel, cread, isig,
  icanon, echo_flag, echoe, echok, echonl, noflsh, echoke, flusho, iexten, vintr, vquit, verase,
  vkill, veof, vstart, vstop, vsusp, vreprint, vdiscard, vwerase, vlnext,
}
use roanix.Dev.Tty.Queue.{
  Removed, push_input, clear_input, bytes_in, reverse, discard_current_line, erase_last_character,
  erase_word, current_line,
}
use roanix.Dev.Tty.Echo.{queue_echo, echo_input, echo_erased, echo_items}

-- The state, the signals to send, whether to flush the backend's output, and whether the event that
-- stopped writers wait on is signalled.
pub record Processing : Type 0 where
  pub state : TtyState
  pub signals : ℕ
  pub flush_output : Bool
  pub output_resumed : Bool

abbrev pub sigint : ℕ
sigint = 2

abbrev pub sigquit : ℕ
sigquit = 3

abbrev pub sigtstp : ℕ
sigtstp = 20

-- `matches!(state.input.pop_back(), Some(InputItem::Byte(_)))`: the queue, here from its back on,
-- without its last item.
unfoldable pub drop_last : List InputItem → TtyState → TtyState
drop_last [] s = s
drop_last (item ∷ rest) s = record s {
  input = reverse rest;
  input_bytes = s.input_bytes - bytes_in item;
}

unfoldable pub pop_back : TtyState → TtyState
pop_back s = drop_last (reverse s.input) s

unfoldable pub enqueue : TtyState → InputItem → TtyState
enqueue s item =
    if leb input_capacity (length s.input)
    then (if is_delimiter item s.termios && any_flag s.termios.local_flags icanon
        then (let p = push_input (pop_back s) item in record p { canonical_ready = length p.input })
        else if any_flag s.termios.input_flags imaxbel
        then queue_echo s (7 ∷ [])
        else s)
    else (let p = push_input s item in
        if not (any_flag s.termios.local_flags icanon)
          || is_delimiter item s.termios
          || length p.input == input_capacity
        then record p { canonical_ready = length p.input }
        else p)

-- The first part: the byte that is left after the translations, if there is one.
unfoldable pub translate : Termios → ℕ → Option ℕ
translate t b =
    if not (any_flag t.control_flags cread)
    then none
    else (let c = if any_flag t.input_flags istrip then b % 128 else b in
        if c == 13 && any_flag t.input_flags igncr
        then none
        else if c == 13 && any_flag t.input_flags icrnl
        then some 10
        else if c == 10 && any_flag t.input_flags inlcr
        then some 13
        else some c)

abbrev pub with_state : Processing → TtyState → Processing
with_state p s = record p { state = s }

-- The second part: flow control, and whether it consumes the byte.
unfoldable pub flow : Termios → ℕ → Processing → Bool × Processing
flow t b p =
    if not (any_flag t.input_flags ixon)
    then (false, p)
    else if control_matches t vstop b && not p.state.output_stopped
    then (
      true,
      record p { state = record (p.state) { output_stopped = true }; output_resumed = false },
    )
    else if control_matches t vstop b && not (control_matches t vstart b)
    then (true, p)
    else if control_matches t vstart b || (p.state.output_stopped && any_flag t.input_flags ixany)
    then (
      control_matches t vstart b,
      record p { state = record (p.state) { output_stopped = false }; output_resumed = true },
    )
    else (false, p)

-- `if termios.local_flags & ECHO != 0 { echo_input(…) }`
unfoldable pub echo_if : Bool → TtyState → Termios → ℕ → TtyState
echo_if true s t b = echo_input s t b
echo_if false s t b = s

unfoldable pub literal : TtyState → Termios → ℕ → TtyState
literal s t b = echo_input (enqueue (record s { literal_next = false }) (byte b)) t b

unfoldable pub quote_next : TtyState → Termios → ℕ → TtyState
quote_next s t b =
    let q = record s { literal_next = true } in
    if any_flag t.local_flags echo_flag && any_flag t.local_flags echoe
    then queue_echo q (94 ∷ 8 ∷ [])
    else echo_if (any_flag t.local_flags echo_flag) q t b

unfoldable pub set_local_flags : TtyState → ℕ → TtyState
set_local_flags s flags = record s { termios = record (s.termios) { local_flags = flags } }

unfoldable pub discard_output : Processing → Termios → ℕ → Processing
discard_output p t b =
    let s = p.state in
    let echoes = any_flag t.local_flags echo_flag in
    if not (any_flag s.termios.local_flags flusho)
    then (let q = echo_if echoes (record s { echo = [] }) t b in
        record p {
          state = set_local_flags q (bit_or q.termios.local_flags flusho);
          flush_output = true;
        })
    else record p {
      state = echo_if echoes (set_local_flags s (without s.termios.local_flags flusho)) t b;
    }

unfoldable pub signal_of : Termios → ℕ → Option ℕ
signal_of t b =
    if not (any_flag t.local_flags isig)
    then none
    else if control_matches t vintr b
    then some sigint
    else if control_matches t vquit b
    then some sigquit
    else if control_matches t vsusp b
    then some sigtstp
    else none

unfoldable pub interrupt : Processing → Termios → ℕ → ℕ → Processing
interrupt p t b signal =
    let keeps = any_flag t.local_flags noflsh in
    let s = if keeps then p.state else record (clear_input p.state) { echo = [] } in
    record {
      state =
          echo_if (any_flag t.local_flags echo_flag)
            (record s { output_stopped = false; interrupted = true }) t b;
      signals = bit_or p.signals (2 ^ signal);
      flush_output = not keeps || p.flush_output;
      output_resumed = true;
    }

unfoldable pub erase_key : TtyState → Termios → ℕ → TtyState
erase_key s t b =
    let r = erase_last_character t s.input in
    let q = record s { input = r.1.1; input_bytes = s.input_bytes - r.1.0 } in
    if r.1.0 == 0
    then record s { input = r.1.1 }
    else if any_flag t.local_flags echoe
    then echo_erased r.0 q
    else echo_if (any_flag t.local_flags echo_flag) q t b

unfoldable pub kill_key : TtyState → Termios → TtyState
kill_key s t =
    let r = discard_current_line t s.input in
    let q = record s { input = r.1; input_bytes = s.input_bytes - r.0 } in
    if all_flags t.local_flags 2072
    then echo_erased r.0 q
    else echo_if (all_flags t.local_flags 40) q t 10

unfoldable pub word_key : TtyState → Termios → TtyState
word_key s t =
    let r = erase_word t s.input in
    let q = record s { input = r.1; input_bytes = s.input_bytes - r.0 } in
    if any_flag t.local_flags echoe then echo_erased r.0 q else q

unfoldable pub reprint_key : TtyState → Termios → ℕ → TtyState
reprint_key s t b = echo_items t (current_line t s.input) (echo_input (echo_input s t b) t 10)

unfoldable pub plain_key : TtyState → Termios → ℕ → TtyState
plain_key s t b =
    echo_if (any_flag t.local_flags echo_flag || (b == 10 && any_flag t.local_flags echonl))
      (enqueue s (byte b)) t b

-- The editing keys of canonical mode; any other byte is put into the queue.
unfoldable pub canonical_key : TtyState → Termios → ℕ → TtyState
canonical_key s t b =
    if control_matches t verase b
    then erase_key s t b
    else if control_matches t vkill b
    then kill_key s t
    else if any_flag t.local_flags iexten && control_matches t vwerase b
    then word_key s t
    else if all_flags t.local_flags 32776 && control_matches t vreprint b
    then reprint_key s t b
    else if control_matches t veof b
    then enqueue s eof
    else plain_key s t b

-- A signal, or a byte that is no key of any signal.
unfoldable pub send_or_key : Option ℕ → Termios → ℕ → Processing → Processing
send_or_key (some signal) t b p = interrupt p t b signal
send_or_key none t b p =
    with_state p
      (if any_flag t.local_flags icanon then canonical_key p.state t b else plain_key p.state t b)

-- What follows flow control.
unfoldable pub key : Termios → ℕ → Processing → Processing
key t b p =
    let extended = any_flag t.local_flags iexten in
    if p.state.literal_next
    then with_state p (literal p.state t b)
    else if extended && control_matches t vlnext b
    then with_state p (quote_next p.state t b)
    else if extended && control_matches t vdiscard b
    then discard_output p t b
    else send_or_key (signal_of t b) t b p

-- What follows the translations.
unfoldable pub flow_or_key : Option ℕ → Termios → Processing → Processing
flow_or_key none t p = p
flow_or_key (some b) t p = if (flow t b p).0 then (flow t b p).1 else key t b (flow t b p).1

unfoldable pub process_input_byte : Termios → ℕ → Processing → Processing
process_input_byte t b p = flow_or_key (translate t b) t p

unfoldable pub process_bytes : List ℕ → Processing → Processing
process_bytes [] p = p
process_bytes (b ∷ bytes) p = process_bytes bytes (process_input_byte p.state.termios b p)

-- The branch of `process_input_generation` for a terminal that translates nothing.
unfoldable pub process_raw : List ℕ → TtyState → TtyState
process_raw bytes s =
    let accepted = min (length bytes) (input_capacity - length s.input) in
    let input = s.input ++ map byte (take accepted bytes) in
    record s {
      input = input;
      input_bytes = s.input_bytes + accepted;
      canonical_ready = length input;
    }

unfoldable pub is_raw : TtyState → Bool
is_raw s =
    any_flag s.termios.control_flags cread
    && not (any_flag s.termios.input_flags 1504)
    && not (any_flag s.termios.local_flags 32843)
    && not s.literal_next

-- `process_input_generation` where no flush of the input has begun.
unfoldable pub process_input : List ℕ → Bool → TtyState → Processing
process_input bytes resumed s =
    let start : Processing = record {
      state = s;
      signals = 0;
      flush_output = false;
      output_resumed = resumed;
    } in
    if is_raw s then with_state start (process_raw bytes s) else process_bytes bytes start
