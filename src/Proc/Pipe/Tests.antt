-- ===== src/Proc/Pipe/Tests.antt =====
-- kernel/src/proc/pipe.rs at a concrete pipe.
use roanix.Prelude.{
  ℕ, zero, suc, ◌≤◌, ◌<◌, ◌≡◌, refl, true, false, some, List, [], ◌∷◌, length, take, drop, is_empty,
  arith,
}
use roanix.Proc.Pipe.{
  Pipe, pair, Sink, Source, reading, writing, returns, read, read_some, copy_out, handed_over,
  write, write_some, has_room, written, copy_in, close,
}
use roanix.Proc.Pipe.Steps.{Maps, Present}
use roanix.Proc.Pipe.Fifo.{Runs, idle, step, reads, writes, closes, delivered, accepted, pair-Fifo}
use roanix.Proc.Pipe.Atomic.{AllOrNothing, write-AllOrNothing, read-drained}

abbrev bytes : List ℕ
bytes = 1 ∷ 2 ∷ 3 ∷ []

-- A source that maps all of its bytes.
abbrev mapped : Source
mapped = record { len = 3; window = λ offset n. some (take n (drop offset bytes)) }

-- A window is no longer than asked for, and a piece of what it is taken from.
window-short : (xs : List ℕ) (n : ℕ) → length (take n xs) ≤ n
window-short xs zero = omega arith
window-short [] (suc n) = omega arith
window-short (x ∷ xs) (suc n) = omega (arith, window-short xs n)

window-piece : (xs : List ℕ) (n : ℕ) → take n xs ≡ take (length (take n xs)) xs
window-piece xs zero = refl
window-piece [] (suc n) = refl
window-piece (x ∷ xs) (suc n) = rw (← window-piece xs n) refl

mapped-Maps : Maps mapped bytes
mapped-Maps = record {
  len = refl;
  window = λ offset n w e.
      let same : take n (drop offset bytes) ≡ w = ground (arith, e) in
      (
        rw (← same) (window-piece (drop offset bytes) n),
        rw (← same) (window-short (drop offset bytes) n),
      );
}

take-present : (xs : List ℕ) (n : ℕ) → 0 < length xs → 0 < n → is_empty (take n xs) ≡ false
take-present xs zero h k = elim k [ ]
take-present [] (suc n) h k = elim h [ ]
take-present (x ∷ xs) (suc n) h k = refl

drop-present : (xs : List ℕ) (n : ℕ) → n < length xs → 0 < length (drop n xs)
drop-present xs zero h = h
drop-present [] (suc n) h = elim h [ ]
drop-present (x ∷ xs) (suc n) h = drop-present xs n (omega arith)

mapped-Present : Present mapped bytes
mapped-Present = λ offset n inside some_bytes. (
  take n (drop offset bytes),
  refl,
  take-present (drop offset bytes) n (drop-present bytes offset inside) some_bytes,
)

abbrev sink : Sink
sink = record { len = 2; store = λ offset stored. true }

abbrev wide_sink : Sink
wide_sink = record { len = 8; store = λ offset stored. true }

-- The pipe after a write of the three bytes, a read of two of them, and the close of the writer.
abbrev last : Pipe
last = record {
  buffer = 3 ∷ [];
  reader_open = true;
  writer_open = false;
  readable = true;
  writable = true;
}

sample-Runs : Runs pair bytes (1 ∷ 2 ∷ []) last
unfolding pair read read_some copy_out handed_over write write_some has_room written copy_in close
    delivered accepted
sample-Runs =
    step _ _ _ _ _ _ _ (writes false mapped bytes pair mapped-Maps) (
      step _ _ _ _ _ _ _ (reads false sink 3 _) (step _ _ _ _ _ _ _ (closes writing _) (idle last)))

pair-Fifo_example : (bytes ≡ 1 ∷ 2 ∷ 3 ∷ []) × (1 ≤ 65536) × (true ≡ true)
pair-Fifo_example = pair-Fifo last bytes (1 ∷ 2 ∷ []) sample-Runs

write-AllOrNothing_example :
    AllOrNothing bytes last (write writing false mapped last).0 (write writing false mapped last).1
write-AllOrNothing_example =
    write-AllOrNothing false mapped bytes last mapped-Maps mapped-Present (omega arith)
      (omega arith)

read-drained_example :
    ((read reading true wide_sink 1 last).0 ≡ returns 1)
    × ((read reading true wide_sink 1 last).1.readable ≡ false)
    × (read reading false sink 0 (read reading true wide_sink 1 last).1
        ≡ (returns 0, (read reading true wide_sink 1 last).1))
unfolding copy_out
read-drained_example =
    read-drained wide_sink 1 last true sink 0 false refl refl (omega arith) refl (omega arith)
