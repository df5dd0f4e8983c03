-- ===== src/Dev/Tty/Read/Lines.antt =====
-- kernel/src/dev/tty.rs: what a read in canonical mode returns, and what it leaves.
use Prim.Native.Nat.{ℕ, zero, suc, ◌-◌, ◌<◌}
use roanix.Prelude.{
  ◌≡◌, ◌≢◌, refl, ap, ◌∙◌, Bool, true, false, some, List, [], ◌∷◌, ◌++◌, map, length, length-append,
  ◌==◌, arith,
}
use roanix.Dev.Tty.{Termios, InputItem, byte, eof, TtyState, is_delimiter}
use roanix.Dev.Tty.Queue.{pop_input, pop_front, bytes_in}
use roanix.Dev.Tty.Read.{
  returned, copy_line, copy_item, front_is_eof, popped, read_line, read_canonical,
}

-- No byte of the list ends a line.
abbrev pub IsPlain : Termios → List ℕ → Type 0
IsPlain t [] = Unit {0}
IsPlain t (b ∷ bs) = (is_delimiter (byte b) t ≡ false) × IsPlain t bs

-- The state behind `k` more items, of which the queue keeps `rest`.
abbrev pub behind : TtyState → ℕ → List InputItem → TtyState
behind s k rest = record s {
  input = rest;
  canonical_ready = s.canonical_ready - k;
  input_bytes = s.input_bytes - k;
}

pop_byte :
    (s : TtyState) (b : ℕ) (rest : List InputItem)
    → s.input ≡ byte b ∷ rest
    → pop_input s ≡ some (byte b, behind s 1 rest)
unfolding pop_input pop_front bytes_in
pop_byte s b rest e = ap (λ xs. pop_front xs s) e

behind-behind :
    (s : TtyState) (k : ℕ) (xs rest : List InputItem)
    → behind (behind s 1 xs) k rest ≡ behind s (suc k) rest
behind-behind s k xs rest = ground arith

copy_line-line :
    (ls : List ℕ) (d n : ℕ) (rest : List InputItem) (s : TtyState)
    → IsPlain s.termios ls
    → is_delimiter (byte d) s.termios ≡ true
    → s.input ≡ map byte (ls ++ d ∷ []) ++ rest
    → length ls < n
    → copy_line n s ≡ (ls ++ d ∷ [], behind s (suc (length ls)) rest)
unfolding copy_line copy_item
copy_line-line ls d zero rest s p dl e lt = let no : 0 < 0 = omega (arith, lt) in elim no [ ]
copy_line-line [] d (suc n) rest s p dl e lt = simp (pop_byte s d rest e) (simp dl refl)
copy_line-line (l ∷ ls) d (suc n) rest s p dl e lt =
    let q = pop_byte s l (map byte (ls ++ d ∷ []) ++ rest) e in
    let ih =
      copy_line-line ls d n rest (behind s 1 (map byte (ls ++ d ∷ []) ++ rest)) p.1 dl refl
        (omega (arith, lt)) in
    simp q (
      simp (p.0, ih)
        (ap (λ v. (l ∷ (ls ++ d ∷ []), v)) (behind-behind s (suc (length ls)) rest rest)))

pub read_line-line :
    (ls : List ℕ) (d n : ℕ) (rest : List InputItem) (s : TtyState)
    → IsPlain s.termios ls
    → is_delimiter (byte d) s.termios ≡ true
    → s.input ≡ map byte (ls ++ d ∷ []) ++ rest
    → suc (length ls) < n
    → read_line n s ≡ (ls ++ d ∷ [], behind s (suc (length ls)) rest)
unfolding read_line
read_line-line ls d n rest s p dl e lt =
    let r = copy_line-line ls d n rest s p dl e (omega (arith, lt)) in
    let short : (length (ls ++ d ∷ []) == n) ≡ false =
      ground (arith, lt, length-append ls (d ∷ [])) in
    simp r (simp short refl)

-- A round with something to read returns it.
pub read_canonical-ready :
    (n : ℕ) (nonblocking : Bool) (s : TtyState)
    → s.interrupted ≡ false
    → s.canonical_ready ≢ 0
    → read_canonical n nonblocking s ≡ (returned (read_line n s).0, (read_line n s).1)
unfolding read_canonical
read_canonical-ready n nonblocking s i c = ground (arith, i, c)

-- Where no interruption is pending, the terminal is ready and the buffer is longer than the line,
-- `read_canonical` returns the bytes up to and including the first delimiter, and leaves exactly
-- what stood behind them.
pub read_canonical-line :
    (ls : List ℕ) (d n : ℕ) (rest : List InputItem) (nonblocking : Bool) (s : TtyState)
    → IsPlain s.termios ls
    → is_delimiter (byte d) s.termios ≡ true
    → s.input ≡ map byte (ls ++ d ∷ []) ++ rest
    → s.interrupted ≡ false
    → s.canonical_ready ≢ 0
    → suc (length ls) < n
    → read_canonical n nonblocking s ≡ (returned (ls ++ d ∷ []), behind s (suc (length ls)) rest)
read_canonical-line ls d n rest nonblocking s p dl e i c lt =
    read_canonical-ready n nonblocking s i c
    ∙ ap (λ r. (returned r.0, r.1)) (read_line-line ls d n rest s p dl e lt)

read_line-exact :
    (ls : List ℕ) (d : ℕ) (rest : List InputItem) (s : TtyState)
    → IsPlain s.termios ls
    → is_delimiter (byte d) s.termios ≡ true
    → s.input ≡ map byte (ls ++ d ∷ []) ++ eof ∷ rest
    → suc (length ls) < s.canonical_ready
    → read_line (suc (length ls)) s
      ≡ (ls ++ d ∷ [], popped (behind s (suc (length ls)) (eof ∷ rest)))
unfolding read_line front_is_eof
read_line-exact ls d rest s p dl e c =
    let r = copy_line-line ls d (suc (length ls)) (eof ∷ rest) s p dl e (omega arith) in
    let full : (length (ls ++ d ∷ []) == suc (length ls)) ≡ true =
      ground (arith, length-append ls (d ∷ [])) in
    let more : (s.canonical_ready - suc (length ls) == 0) ≡ false = ground (arith, c) in
    simp r (simp (full, more) refl)

-- Where no interruption is pending, the line fills the buffer exactly and an end of file that is ready
-- too stands behind it, that end of file is taken from the queue together with the line, and no later read will see it.
pub read_canonical-lost_eof :
    (ls : List ℕ) (d : ℕ) (rest : List InputItem) (nonblocking : Bool) (s : TtyState)
    → IsPlain s.termios ls
    → is_delimiter (byte d) s.termios ≡ true
    → s.input ≡ map byte (ls ++ d ∷ []) ++ eof ∷ rest
    → s.interrupted ≡ false
    → suc (length ls) < s.canonical_ready
    → ((read_canonical (suc (length ls)) nonblocking s).0 ≡ returned (ls ++ d ∷ []))
      × ((read_canonical (suc (length ls)) nonblocking s).1.input ≡ rest)
unfolding popped pop_input pop_front
read_canonical-lost_eof ls d rest nonblocking s p dl e i c =
    let q =
      read_canonical-ready (suc (length ls)) nonblocking s i (ground (arith, c))
      ∙ ap (λ r. (returned r.0, r.1)) (read_line-exact ls d rest s p dl e c) in
    (ap (λ r. r.0) q, ap (λ r. r.1.input) q)
