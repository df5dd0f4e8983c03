-- ===== src/Proc/Pipe.antt =====
-- kernel/src/proc/pipe.rs: anonymous byte pipes. A call runs under the pipe's mutex, so each
-- round of its loop is one step: it returns, or it waits on an event and starts over.
pub mod Atomic
pub mod Fifo
pub mod Steps
mod Tests
use Prim.Native.Nat.{bit_and, bit_or}
use roanix.Prelude.{
  ℕ, zero, suc, ◌+◌, ◌-◌, ◌*◌, min, Bool, true, false, not, ◌&&◌, ◌||◌, Option, none, some, List,
  [], ◌∷◌, ◌++◌, length, take, drop, is_empty, ltb, leb, ◌==◌, if◌then◌else◌,
}

abbrev pub pipe_capacity : ℕ
pipe_capacity = 64 * 1024

abbrev pub pipe_atomic_limit : ℕ
pipe_atomic_limit = 4096

pub data PipeError : Type 0 where
  bad_descriptor try_again broken_pipe fault : PipeError

pub data Direction : Type 0 where
  reading writing : Direction

-- `PipeState`, with the two events beside it: whether each is signalled.
pub record Pipe : Type 0 where
  pub buffer : List ℕ
  pub reader_open : Bool
  pub writer_open : Bool
  pub readable : Bool
  pub writable : Bool

-- The pipe that `pair` creates; the endpoints differ in their direction alone.
unfoldable pub pair : Pipe
pair = record {
  buffer = [];
  reader_open = true;
  writer_open = true;
  readable = false;
  writable = true;
}

-- One round of a call: a count that is returned, an error, or a wait on the readable or the
-- writable event. A slice out of range stops the kernel.
pub data Round : Type 0 where
  returns : ℕ → Round
  errs : PipeError → Round
  waits_readable waits_writable stops : Round

-- The caller's sink: how many bytes it takes, and whether a store at an offset succeeds.
pub record Sink : Type 0 where
  pub len : ℕ
  pub store : ℕ → List ℕ → Bool

-- The caller's source: its length, and the window it maps at an offset for a number of bytes;
-- `none` is a fault.
pub record Source : Type 0 where
  pub len : ℕ
  pub window : ℕ → ℕ → Option (List ℕ)

-- The bytes that the two stores of one read hand over: those of the deque's first slice, which
-- holds `front` bytes, and then those of its second.
unfoldable pub handed_over : List ℕ → ℕ → ℕ → List ℕ
handed_over buffer front count =
    take (min front count) buffer ++ take (count - min front count) (drop front buffer)

-- Whether those stores succeed.
unfoldable pub copy_out : Sink → List ℕ → ℕ → ℕ → Bool
copy_out sink buffer front count =
    let from_front = min front count in
    if sink.store 0 (take from_front buffer)
    then (if ltb from_front count
        then sink.store from_front (take (count - from_front) (drop front buffer))
        else true)
    else false

-- The branch of `read` for a buffer that holds data.
unfoldable pub read_some : Sink → ℕ → Pipe → Round × Pipe
read_some sink front p =
    let count = min sink.len (length p.buffer) in
    if copy_out sink p.buffer front count
    then (let rest = drop count p.buffer in
        (
          returns count,
          record p {
            buffer = rest;
            readable = if is_empty rest then false else p.readable;
            writable = true;
          },
        ))
    else (errs fault, p)

-- One round of `PipeEnd::read`. `front` is the length of the deque's first slice.
unfoldable pub read : Direction → Bool → Sink → ℕ → Pipe → Round × Pipe
read writing nonblocking sink front p = (errs bad_descriptor, p)
read reading nonblocking sink front p =
    if sink.len == 0
    then (returns 0, p)
    else if not (is_empty p.buffer)
    then read_some sink front p
    else if not p.writer_open
    then (returns 0, p)
    else if nonblocking
    then (errs try_again, p)
    else (waits_readable, record p { readable = false })

-- What the copy loop of `write` ends with: the bytes appended so far, the fault of its first
-- window, or a window too long for the loop's buffer of 1024 bytes.
pub data Copied : Type 0 where
  appended : List ℕ → Copied
  faulted overrun : Copied

-- The loop `while copied < count`. Each round that goes on appends a byte at least, so `count`
-- rounds of fuel are enough.
unfoldable pub copy_in : ℕ → Source → ℕ → List ℕ → Copied
copy_in zero source count bytes = appended bytes
copy_in (suc fuel) source count bytes = elim (ltb (length bytes) count) [
  | false ↦ appended bytes
  | true ↦ elim (source.window (length bytes) (min (count - length bytes) 1024)) [
    | none ↦ if is_empty bytes then faulted else appended bytes
    | some w ↦ elim (is_empty w) [
      | true ↦ appended bytes
      | false ↦ elim (leb (length w) 1024) [
        | true ↦ copy_in fuel source count (bytes ++ w)
        | false ↦ overrun
      ]
    ]
  ]
]

-- The end of a round of `write`, by what its copy loop ends with.
unfoldable pub written : Pipe → Copied → Round × Pipe
written p (appended bytes) =
    let buffer = p.buffer ++ bytes in
    (
      returns (length bytes),
      record p {
        buffer = buffer;
        readable = true;
        writable = if length buffer == pipe_capacity then false else p.writable;
      },
    )
written p faulted = (errs fault, p)
written p overrun = (stops, p)

-- The branch of `write` for a buffer that has room.
unfoldable pub write_some : Source → Pipe → Round × Pipe
write_some source p =
    let count = min (pipe_capacity - length p.buffer) source.len in
    written p (copy_in count source count [])

-- The test of `write` for room: a write up to the limit is all or nothing.
unfoldable pub has_room : Source → Pipe → Bool
has_room source p =
    let available = pipe_capacity - length p.buffer in
    not (available == 0) && (not (leb source.len pipe_atomic_limit) || leb source.len available)

-- One round of `PipeEnd::write`.
unfoldable pub write : Direction → Bool → Source → Pipe → Round × Pipe
write reading nonblocking source p = (errs bad_descriptor, p)
write writing nonblocking source p =
    if source.len == 0
    then (returns 0, p)
    else if not p.reader_open
    then (errs broken_pipe, p)
    else if has_room source p
    then write_some source p
    else if nonblocking
    then (errs try_again, p)
    else (waits_writable, record p { writable = false })

-- `PipeEnd::access_mode`
unfoldable pub access_mode : Direction → ℕ
access_mode reading = 0
access_mode writing = 1

-- The bits of `PollEvents`.
abbrev pub poll_in : ℕ
poll_in = 0x0001

abbrev pub poll_out : ℕ
poll_out = 0x0004

abbrev pub poll_err : ℕ
poll_err = 0x0008

abbrev pub poll_hup : ℕ
poll_hup = 0x0010

abbrev pub poll_rdnorm : ℕ
poll_rdnorm = 0x0040

abbrev pub poll_wrnorm : ℕ
poll_wrnorm = 0x0100

-- `PipeEnd::poll`
unfoldable pub poll : Direction → ℕ → Pipe → ℕ
poll reading events p =
    let ready = if is_empty p.buffer then 0 else bit_and events (bit_or poll_in poll_rdnorm) in
    if p.writer_open then ready else bit_or ready poll_hup
poll writing events p =
    if not p.reader_open
    then poll_err
    else if ltb (length p.buffer) pipe_capacity
    then bit_and events (bit_or poll_out poll_wrnorm)
    else 0

-- `Drop` of an endpoint.
unfoldable pub close : Direction → Pipe → Pipe
close reading p = record p { reader_open = false; writable = true }
close writing p = record p { writer_open = false; readable = true }

-- Whether `poll_events` adds the endpoint's event, for the bits that are asked for.
unfoldable pub poll_events : Direction → ℕ → Bool
poll_events reading events =
    not (bit_and events (bit_or (bit_or poll_in poll_rdnorm) poll_hup) == 0)
poll_events writing events =
    not (bit_and events (bit_or (bit_or poll_out poll_wrnorm) poll_err) == 0)
