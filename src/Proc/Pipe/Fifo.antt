-- ===== src/Proc/Pipe/Fifo.antt =====
-- kernel/src/proc/pipe.rs as a bounded queue of bytes, whatever calls its two ends make.
use roanix.Prelude.{
  ℕ, ◌+◌, ◌-◌, ◌≤◌, ◌≡◌, refl, ap, sym, ◌∙◌, min, Bool, true, false, ◌||◌, inl, inr, List, [], ◌++◌,
  length, take, drop, is_empty, ltb, arith, Bool-cases, length-append, length-drop, append-nil,
  append_assoc, take-append-drop, take-add, subst,
}
use roanix.Proc.Pipe.{
  Pipe, pair, Sink, Source, Direction, reading, writing, Round, returns, appended, handed_over,
  read_some, read, written, write_some, write, close, pipe_capacity,
}
use roanix.Proc.Pipe.Steps.{Maps, by_fault, with_bytes, copy_in-Ends}

-- The two stores hand over the first `count` bytes, however the deque is laid out.
pub handed_over-take :
    (buffer : List ℕ) (front count : ℕ) → handed_over buffer front count ≡ take count buffer
unfolding handed_over
handed_over-take buffer front count = elim (Bool-cases (ltb front count)) [
  | inl lt ↦
      let m : min front count ≡ front = ground arith in
      let n : front + (count - front) ≡ count = ground arith in
      ap stores m ∙ sym (take-add front (count - front) buffer) ∙ ap (λ k. take k buffer) n
  | inr ge ↦
      let m : min front count ≡ count = ground arith in
      let n : count - count ≡ 0 = omega arith in
      ap stores m
      ∙ ap (λ k. take count buffer ++ take k (drop front buffer)) n
      ∙ append-nil (take count buffer)
]
  where
    stores : ℕ → List ℕ
    stores k = take k buffer ++ take (count - k) (drop front buffer)

-- What a reader has in its memory after a round, and what a writer has handed in.
unfoldable pub delivered : Round → ℕ → List ℕ → List ℕ
delivered (returns n) front buffer = handed_over buffer front n
delivered _ front buffer = []

unfoldable pub accepted : Round → List ℕ → List ℕ
accepted (returns n) bytes = take n bytes
accepted _ bytes = []

-- The pipe holds no more than its capacity, and with data in it its readable event is signalled.
pub record IsPipe (p : Pipe) : Type 0 where
  pub bounded : length p.buffer ≤ pipe_capacity
  pub awake : is_empty p.buffer ≡ false → p.readable ≡ true

read_some-buffer :
    (sink : Sink) (front : ℕ) (p : Pipe)
    → let (r, q) = read_some sink front p in p.buffer ≡ delivered r front p.buffer ++ q.buffer
unfolding read_some delivered
read_some-buffer sink front p = ground (
  arith,
  handed_over-take p.buffer front (min sink.len (length p.buffer)),
  take-append-drop (min sink.len (length p.buffer)) p.buffer,
)

-- A read takes from the front of the queue what it delivers, and keeps the rest in order.
read-buffer :
    (nonblocking : Bool) (sink : Sink) (front : ℕ) (p : Pipe)
    → let (r, q) = read reading nonblocking sink front p in
      p.buffer ≡ delivered r front p.buffer ++ q.buffer
unfolding read delivered
read-buffer nonblocking sink front p =
    ground (arith, read_some-buffer sink front p, handed_over-take p.buffer front 0)

read-IsPipe :
    (nonblocking : Bool) (sink : Sink) (front : ℕ) (p : Pipe)
    → IsPipe p
    → IsPipe (read reading nonblocking sink front p).1
unfolding read read_some
read-IsPipe nonblocking sink front p v =
    ground (arith, length-drop (min sink.len (length p.buffer)) p.buffer)

-- A round of `write` whose loop ends with bytes adds them to the queue.
written-buffer :
    (bytes out : List ℕ) (p : Pipe)
    → out ≡ take (length out) bytes
    → (written p (appended out)).1.buffer ≡ p.buffer ++ accepted (written p (appended out)).0 bytes
unfolding written accepted
written-buffer bytes out p f = ap (λ t. p.buffer ++ t) f

write_some-buffer :
    (source : Source) (bytes : List ℕ) (p : Pipe)
    → Maps source bytes
    → let (r, q) = write_some source p in q.buffer ≡ p.buffer ++ accepted r bytes
unfolding write_some written accepted
write_some-buffer source bytes p m =
    elim (copy_in-Ends source bytes count m count [] (omega arith) refl) [
      | by_fault e ↦
          subst (λ c. (written p c).1.buffer ≡ p.buffer ++ accepted (written p c).0 bytes) (sym e)
            (sym (append-nil p.buffer))
      | with_bytes out e k f ↦
          subst (λ c. (written p c).1.buffer ≡ p.buffer ++ accepted (written p c).0 bytes) (sym e)
            (ap (λ t. p.buffer ++ t) f)
    ]
  where
    count : ℕ
    count = min (pipe_capacity - length p.buffer) source.len

write_some-IsPipe :
    (source : Source) (bytes : List ℕ) (p : Pipe)
    → Maps source bytes
    → IsPipe p
    → IsPipe (write_some source p).1
unfolding write_some written
write_some-IsPipe source bytes p m v =
    elim (copy_in-Ends source bytes count m count [] (omega arith) refl) [
      | by_fault e ↦ subst (λ c. IsPipe (written p c).1) (sym e) v
      | with_bytes out e k f ↦
          subst (λ c. IsPipe (written p c).1) (sym e)
            (record {
              bounded = omega (arith, length-append p.buffer out, v.bounded);
              awake = λ h. refl;
            })
    ]
  where
    count : ℕ
    count = min (pipe_capacity - length p.buffer) source.len

-- A write adds to the end of the queue the bytes that it reports as written.
write-buffer :
    (nonblocking : Bool) (source : Source) (bytes : List ℕ) (p : Pipe)
    → Maps source bytes
    → let (r, q) = write writing nonblocking source p in q.buffer ≡ p.buffer ++ accepted r bytes
unfolding write accepted
write-buffer nonblocking source bytes p m =
    ground (arith, write_some-buffer source bytes p m, append-nil p.buffer)

write-IsPipe :
    (nonblocking : Bool) (source : Source) (bytes : List ℕ) (p : Pipe)
    → Maps source bytes
    → IsPipe p
    → IsPipe (write writing nonblocking source p).1
unfolding write
write-IsPipe nonblocking source bytes p m v = ground (arith, write_some-IsPipe source bytes p m v)

-- One round of a call on an endpoint: the pipe before it, the bytes it takes from a writer's
-- memory, the bytes it puts into a reader's, and the pipe after it.
pub data Step : Pipe → List ℕ → List ℕ → Pipe → Type 0 where
  reads :
      (nonblocking : Bool) (sink : Sink) (front : ℕ) (p : Pipe)
      → Step p []
          (delivered (read reading nonblocking sink front p).0 front p.buffer)
          (read reading nonblocking sink front p).1
  writes :
      (nonblocking : Bool) (source : Source) (bytes : List ℕ) (p : Pipe)
      → Maps source bytes
      → Step p
          (accepted (write writing nonblocking source p).0 bytes)
          []
          (write writing nonblocking source p).1
  closes : (d : Direction) (p : Pipe) → Step p [] [] (close d p)

-- Rounds of any number of readers and writers, in the order in which they hold the mutex.
pub data Runs : Pipe → List ℕ → List ℕ → Pipe → Type 0 where
  idle : (p : Pipe) → Runs p [] [] p
  step :
      (p q r : Pipe) (i o ins outs : List ℕ)
      → Step p i o q
      → Runs q ins outs r
      → Runs p (i ++ ins) (o ++ outs) r

Step-buffer : (p q : Pipe) (i o : List ℕ) → Step p i o q → p.buffer ++ i ≡ o ++ q.buffer
unfolding close
Step-buffer _ _ _ _ (reads nonblocking sink front p) =
    append-nil p.buffer ∙ read-buffer nonblocking sink front p
Step-buffer _ _ _ _ (writes nonblocking source bytes p m) =
    sym (write-buffer nonblocking source bytes p m)
Step-buffer _ _ _ _ (closes reading p) = append-nil p.buffer
Step-buffer _ _ _ _ (closes writing p) = append-nil p.buffer

Step-IsPipe : (p q : Pipe) (i o : List ℕ) → Step p i o q → IsPipe p → IsPipe q
unfolding close
Step-IsPipe _ _ _ _ (reads nonblocking sink front p) v = read-IsPipe nonblocking sink front p v
Step-IsPipe _ _ _ _ (writes nonblocking source bytes p m) v =
    write-IsPipe nonblocking source bytes p m v
Step-IsPipe _ _ _ _ (closes reading p) v = record { bounded = v.bounded; awake = v.awake }
Step-IsPipe _ _ _ _ (closes writing p) v = record { bounded = v.bounded; awake = λ h. refl }

Runs-buffer :
    (p q : Pipe) (ins outs : List ℕ) → Runs p ins outs q → p.buffer ++ ins ≡ outs ++ q.buffer
Runs-buffer _ _ _ _ (idle p) = append-nil p.buffer
Runs-buffer _ _ _ _ (step p q r i o ins outs s rest) =
    sym (append_assoc p.buffer i ins)
    ∙ ap (λ t. t ++ ins) (Step-buffer p q i o s)
    ∙ append_assoc o q.buffer ins
    ∙ ap (λ t. o ++ t) (Runs-buffer q r ins outs rest)
    ∙ sym (append_assoc o outs r.buffer)

Runs-IsPipe : (p q : Pipe) (ins outs : List ℕ) → Runs p ins outs q → IsPipe p → IsPipe q
Runs-IsPipe _ _ _ _ (idle p) v = v
Runs-IsPipe _ _ _ _ (step p q r i o ins outs s rest) v =
    Runs-IsPipe q r ins outs rest (Step-IsPipe p q i o s v)

or_readable : (q : Pipe) → IsPipe q → (is_empty q.buffer || q.readable) ≡ true
or_readable q w = ground (arith, w.awake)

-- From a new pipe, whatever rounds its readers and writers run and whenever they close, the bytes
-- that the writers were told are written are those that the readers received, in the same order,
-- followed by those in the buffer, of which there are 65536 at most; and while the buffer holds
-- data, the event that readers wait on is signalled.
pub pair-Fifo :
    (q : Pipe) (ins outs : List ℕ)
    → Runs pair ins outs q
    → (ins ≡ outs ++ q.buffer)
      × (length q.buffer ≤ 65536)
      × ((is_empty q.buffer || q.readable) ≡ true)
unfolding pair
pair-Fifo q ins outs runs =
    let v : IsPipe pair = record { bounded = omega arith; awake = λ h. ground arith } in
    let w = Runs-IsPipe pair q ins outs runs v in
    (Runs-buffer pair q ins outs runs, w.bounded, or_readable q w)
