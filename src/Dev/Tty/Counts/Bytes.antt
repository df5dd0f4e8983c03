-- ===== src/Dev/Tty/Counts/Bytes.antt =====
-- kernel/src/dev/tty.rs: every run of input keeps the counter and the bounds of a terminal's queues.
use Prim.Native.Nat.{ℕ, ◌-◌, min, bit_or}
use roanix.Prelude.{
  ◌≡◌, refl, Bool, true, false, Option, none, some, List, [], ◌∷◌, length, map, take, length-append,
  length-take, arith, if◌then◌else◌,
}
use roanix.Dev.Tty.{
  Termios, byte, TtyState, any_flag, echo_flag, flusho, noflsh, input_capacity, without,
}
use roanix.Dev.Tty.Queue.{clear_input, bytes_in}
use roanix.Dev.Tty.Input.{
  Processing, translate, flow, echo_if, set_local_flags, discard_output, signal_of, interrupt,
  send_or_key, flow_or_key, key, process_input_byte, process_bytes, process_raw, process_input,
}
use roanix.Dev.Tty.Counts.{count, IsTty, count-append}
use roanix.Dev.Tty.Counts.Keys.{
  echo_if-IsTty, same_queues, canonical_key-IsTty, plain_key-IsTty, literal-IsTty, quote_next-IsTty,
}

-- A state without echo still keeps the invariant.
no_echo : (s : TtyState) → IsTty s → IsTty (record s { echo = [] })
no_echo s h = record { counted = h.counted; room = h.room; echo_room = omega arith }

set_local_flags-IsTty : (s : TtyState) (flags : ℕ) → IsTty s → IsTty (set_local_flags s flags)
unfolding set_local_flags
set_local_flags-IsTty s flags h = same_queues s _ refl refl refl h

discard_output-IsTty :
    (p : Processing) (t : Termios) (b : ℕ) → IsTty p.state → IsTty (discard_output p t b).state
unfolding discard_output
discard_output-IsTty p t b h =
    let echoes = any_flag t.local_flags echo_flag in
    let q = echo_if-IsTty echoes _ t b (no_echo p.state h) in
    let off = without p.state.termios.local_flags flusho in
    ground (
      arith,
      set_local_flags-IsTty _
          (bit_or (echo_if echoes (record (p.state) { echo = [] }) t b).termios.local_flags flusho)
          q,
      echo_if-IsTty echoes _ t b (set_local_flags-IsTty p.state off h),
    )

interrupt-IsTty :
    (p : Processing) (t : Termios) (b signal : ℕ)
    → IsTty p.state
    → IsTty (interrupt p t b signal).state
unfolding interrupt clear_input
interrupt-IsTty p t b signal h =
    elim (any_flag t.local_flags noflsh)
      as (λ keeps. IsTty (
        echo_if (any_flag t.local_flags echo_flag)
          (record (if keeps then p.state else record (clear_input p.state) { echo = [] }) {
            output_stopped = false;
            interrupted = true;
          })
          t b)) [
            | true ↦ echo_if-IsTty _ _ t b (same_queues p.state _ refl refl refl h)
            | false ↦
                echo_if-IsTty _ _ t b
                  (record { counted = refl; room = omega arith; echo_room = omega arith })
          ]

flow-IsTty : (t : Termios) (b : ℕ) (p : Processing) → IsTty p.state → IsTty (flow t b p).1.state
unfolding flow
flow-IsTty t b p h = ground (
  arith,
  h,
  same_queues p.state (record (p.state) { output_stopped = true }) refl refl refl h,
  same_queues p.state (record (p.state) { output_stopped = false }) refl refl refl h,
)

send_or_key-IsTty :
    (signal : Option ℕ) (t : Termios) (b : ℕ) (p : Processing)
    → IsTty p.state
    → IsTty (send_or_key signal t b p).state
unfolding send_or_key
send_or_key-IsTty (some signal) t b p h = interrupt-IsTty p t b signal h
send_or_key-IsTty none t b p h =
    ground (arith, canonical_key-IsTty p.state t b h, plain_key-IsTty p.state t b h)

key-IsTty : (t : Termios) (b : ℕ) (p : Processing) → IsTty p.state → IsTty (key t b p).state
unfolding key
key-IsTty t b p h = ground (
  arith,
  literal-IsTty p.state t b h,
  quote_next-IsTty p.state t b h,
  discard_output-IsTty p t b h,
  send_or_key-IsTty (signal_of t b) t b p h,
)

flow_or_key-IsTty :
    (o : Option ℕ) (t : Termios) (p : Processing) → IsTty p.state → IsTty (flow_or_key o t p).state
unfolding flow_or_key
flow_or_key-IsTty none t p h = h
flow_or_key-IsTty (some b) t p h =
    ground (arith, flow-IsTty t b p h, key-IsTty t b (flow t b p).1 (flow-IsTty t b p h))

process_input_byte-IsTty :
    (t : Termios) (b : ℕ) (p : Processing) → IsTty p.state → IsTty (process_input_byte t b p).state
unfolding process_input_byte
process_input_byte-IsTty t b p h = flow_or_key-IsTty (translate t b) t p h

process_bytes-IsTty :
    (bytes : List ℕ) (p : Processing) → IsTty p.state → IsTty (process_bytes bytes p).state
unfolding process_bytes
process_bytes-IsTty [] p h = h
process_bytes-IsTty (b ∷ bytes) p h =
    process_bytes-IsTty bytes _ (process_input_byte-IsTty p.state.termios b p h)

count-bytes : (bytes : List ℕ) → count (map byte bytes) ≡ length bytes
unfolding bytes_in
count-bytes [] = refl
count-bytes (b ∷ bytes) = omega (arith, count-bytes bytes)

length-bytes : (bytes : List ℕ) → length (map byte bytes) ≡ length bytes
length-bytes [] = refl
length-bytes (b ∷ bytes) = omega (arith, length-bytes bytes)

process_raw-IsTty : (bytes : List ℕ) (s : TtyState) → IsTty s → IsTty (process_raw bytes s)
unfolding process_raw
process_raw-IsTty bytes s h =
    let accepted = min (length bytes) (input_capacity - length s.input) in
    let new = take accepted bytes in
    record {
      counted = omega (
        arith,
        h.counted,
        count-append s.input (map byte new),
        count-bytes new,
        length-take accepted bytes,
      );
      room = omega (
        arith,
        h.room,
        length-append s.input (map byte new),
        length-bytes new,
        length-take accepted bytes,
      );
      echo_room = h.echo_room;
    }

-- Whatever is typed, in whatever mode and with whatever settings, if the counter of bytes is the number
-- of bytes in the input queue, and the input and the echo queue are within 4096 entries, they stay so.
pub process_input-IsTty :
    (bytes : List ℕ) (resumed : Bool) (s : TtyState)
    → IsTty s
    → IsTty (process_input bytes resumed s).state
unfolding process_input
process_input-IsTty bytes resumed s h = ground (
  arith,
  process_raw-IsTty bytes s h,
  process_bytes-IsTty bytes
      (record { state = s; signals = 0; flush_output = false; output_resumed = resumed }) h,
)
