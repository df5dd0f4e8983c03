-- ===== src/Proc/Pipe/Atomic.antt =====
-- kernel/src/proc/pipe.rs: writes up to the atomic limit, and the event that a last read resets.
use roanix.Prelude.{
  ℕ, ◌-◌, ◌≤◌, ◌<◌, ◌≡◌, refl, ap, sym, ◌∙◌, min, Bool, true, false, inl, inr, List, [], ◌++◌,
  length, is_empty, ◌==◌, arith, Bool-cases, take-length, drop-length, subst,
}
use roanix.Proc.Pipe.{
  Pipe, Sink, Source, reading, writing, Round, returns, errs, waits_writable, PipeError, try_again,
  broken_pipe, appended, copy_out, read_some, read, copy_in, written, write_some, has_room, write,
  pipe_capacity, pipe_atomic_limit,
}
use roanix.Proc.Pipe.Steps.{Maps, Present, copy_in-full, not_empty}

-- The write took the caller's bytes whole, or left the queue as it was.
pub data AllOrNothing (bytes : List ℕ) (p : Pipe) (r : Round) (q : Pipe) : Type 0 where
  all : r ≡ returns (length bytes) → q.buffer ≡ p.buffer ++ bytes → AllOrNothing bytes p r q
  refused : (e : PipeError) → r ≡ errs e → q ≡ p → AllOrNothing bytes p r q
  waited : r ≡ waits_writable → q.buffer ≡ p.buffer → AllOrNothing bytes p r q

write_some-whole :
    (source : Source) (bytes : List ℕ) (p : Pipe)
    → Maps source bytes
    → Present source bytes
    → length bytes ≤ pipe_capacity - length p.buffer
    → write_some source p ≡ written p (appended bytes)
unfolding write_some
write_some-whole source bytes p m pr room =
    let n : min (pipe_capacity - length p.buffer) source.len ≡ length bytes =
      omega (arith, m.len) in
    ap (λ k. written p (copy_in k source k [])) n
    ∙ ap (written p) (
        copy_in-full source bytes (length bytes) m (length bytes) [] pr (omega arith) (omega arith)
          (omega arith) refl)
    ∙ ap (λ t. written p (appended t)) (take-length bytes)

written-all :
    (bytes : List ℕ) (p : Pipe) (r : Round) (q : Pipe)
    → (r, q) ≡ written p (appended bytes)
    → AllOrNothing bytes p r q
unfolding written
written-all bytes p r q e = all (ap (λ x. x.0) e) (ap (λ x. x.1.buffer) e)

has_room-enough :
    (source : Source) (p : Pipe)
    → source.len ≤ pipe_atomic_limit
    → has_room source p ≡ true
    → source.len ≤ pipe_capacity - length p.buffer
unfolding has_room
has_room-enough source p k h = ground (arith, h)

-- A blocking or nonblocking write of 1 to 4096 bytes, all of them in mapped memory, puts all of them
-- in the buffer and returns their number, or changes nothing and returns an error, or waits for
-- room with the buffer as it was.
pub write-AllOrNothing :
    (nonblocking : Bool) (source : Source) (bytes : List ℕ) (p : Pipe)
    → Maps source bytes
    → Present source bytes
    → 0 < length bytes
    → length bytes ≤ 4096
    → let (r, q) = write writing nonblocking source p in AllOrNothing bytes p r q
unfolding write
write-AllOrNothing nonblocking source bytes p m pr some_bytes small =
    elim (Bool-cases p.reader_open) [
      | inr closed ↦ simp (nonzero, closed) (refused broken_pipe refl refl)
      | inl still_open ↦ elim (Bool-cases (has_room source p)) [
        | inl h ↦
            simp
              (
                nonzero,
                still_open,
                h,
                write_some-whole source bytes p m pr
                    (omega (arith, m.len, has_room-enough source p (omega (arith, m.len)) h)),
              )
              (written-all bytes p (written p (appended bytes)).0 (written p (appended bytes)).1
                refl)
        | inr h ↦ elim (Bool-cases nonblocking) [
          | inl b ↦ simp (nonzero, still_open, h, b) (refused try_again refl refl)
          | inr b ↦ simp (nonzero, still_open, h, b) (waited refl refl)
        ]
      ]
    ]
  where
    nonzero : (source.len == 0) ≡ false
    nonzero = ground (arith, m.len)

read-emptied :
    (b : Bool) (sink : Sink) (front : ℕ) (p : Pipe)
    → is_empty p.buffer ≡ false
    → length p.buffer ≤ sink.len
    → copy_out sink p.buffer front (length p.buffer) ≡ true
    → read reading b sink front p
      ≡ (returns (length p.buffer), record p { buffer = []; readable = false; writable = true })
unfolding read read_some
read-emptied b sink front p some_bytes fits stored =
    simp (nonzero, some_bytes, all_of_it, stored, drop-length p.buffer) refl
  where
    nonzero : (sink.len == 0) ≡ false
    nonzero = ground (arith, not_empty p.buffer some_bytes)

    all_of_it : min sink.len (length p.buffer) ≡ length p.buffer
    all_of_it = omega arith

read-at_end :
    (b : Bool) (sink : Sink) (front : ℕ) (p : Pipe)
    → is_empty p.buffer ≡ true
    → p.writer_open ≡ false
    → 0 < sink.len
    → read reading b sink front p ≡ (returns 0, p)
unfolding read
read-at_end b sink front p nothing closed some_room =
    let nonzero : (sink.len == 0) ≡ false = ground arith in simp (nonzero, nothing, closed) refl

-- A read that takes all that the buffer holds after the last writer has closed leaves the readable
-- event unsignalled, although the pipe stays readable for good: every later read of at least one
-- byte returns 0 at once and leaves the pipe, the event with it, as it is.
pub read-drained :
    (sink : Sink) (front : ℕ) (p : Pipe) (b : Bool) (sink' : Sink) (front' : ℕ) (b' : Bool)
    → p.writer_open ≡ false
    → is_empty p.buffer ≡ false
    → length p.buffer ≤ sink.len
    → copy_out sink p.buffer front (length p.buffer) ≡ true
    → 0 < sink'.len
    → let (r, q) = read reading b sink front p in
      (r ≡ returns (length p.buffer))
      × (q.readable ≡ false)
      × (read reading b' sink' front' q ≡ (returns 0, q))
read-drained sink front p b sink' front' b' closed some_bytes fits stored some_room =
    let e = read-emptied b sink front p some_bytes fits stored in
    let shut : Pipe = record p { buffer = []; readable = false; writable = true } in
    (
      ap (λ x. x.0) e,
      ap (λ x. x.1.readable) e,
      subst (λ q. read reading b' sink' front' q ≡ (returns 0, q)) (sym (ap (λ x. x.1) e))
          (read-at_end b' sink' front' shut refl closed some_room),
    )
