-- ===== src/Proc/TimerFd/Timespec.antt =====
-- The encoding of times of kernel/src/proc/timerfd.rs.
use roanix.Prelude.{
  take, drop, ◌>>=◌, ℕ, ◌+◌, ◌*◌, ◌/◌, ◌%◌, ◌^◌, ◌<◌, ◌≡◌, refl, ap, ◌∙◌, ◌||◌, ◌++◌, leb,
  if◌then◌else◌, arith, ok, err,
}
use roanix.Proc.TimerFd.{
  read_user_itimerspec, write_user_itimerspec, invalid, overflow, decode_timespec, decode_words,
  encode_timespec,
}
use roanix.Prelude.Bytes.{to_bytes, from_bytes, from-to_bytes}

halves :
    (seconds nanoseconds : ℕ)
    → decode_timespec (to_bytes 8 seconds ++ to_bytes 8 nanoseconds)
      ≡ decode_words (from_bytes (to_bytes 8 seconds)) (from_bytes (to_bytes 8 nanoseconds))
unfolding decode_timespec to_bytes
halves seconds nanoseconds = refl

decoded-words :
    (seconds nanoseconds : ℕ)
    → seconds < 2 ^ 64
    → nanoseconds < 2 ^ 64
    → decode_timespec (to_bytes 8 seconds ++ to_bytes 8 nanoseconds)
      ≡ decode_words seconds nanoseconds
decoded-words seconds nanoseconds h k =
    halves seconds nanoseconds
    ∙ ap (λ s. decode_words s (from_bytes (to_bytes 8 nanoseconds))) (from-to_bytes 8 seconds h)
    ∙ ap (decode_words seconds) (from-to_bytes 8 nanoseconds k)

decode_words_lem :
    (seconds nanoseconds : ℕ)
    → decode_words seconds nanoseconds ≡ (
        if leb (2 ^ 63) seconds || leb 1000000000 nanoseconds
        then err invalid
        else if leb (2 ^ 64) (seconds * 1000000000 + nanoseconds)
        then err overflow
        else ok (seconds * 1000000000 + nanoseconds))
unfolding decode_words
decode_words_lem seconds nanoseconds = ground arith

-- The two words of a time in memory are taken for what they are: negative seconds and nanoseconds
-- out of their range are refused, then a time of `2 ^ 64` nanoseconds or more.
decode_timespec_lem :
    (seconds nanoseconds : ℕ)
    → seconds < 2 ^ 64
    → nanoseconds < 2 ^ 64
    → decode_timespec (to_bytes 8 seconds ++ to_bytes 8 nanoseconds) ≡ (
        if leb (2 ^ 63) seconds || leb 1000000000 nanoseconds
        then err invalid
        else if leb (2 ^ 64) (seconds * 1000000000 + nanoseconds)
        then err overflow
        else ok (seconds * 1000000000 + nanoseconds))
decode_timespec_lem seconds nanoseconds h k =
    decoded-words seconds nanoseconds h k ∙ decode_words_lem seconds nanoseconds

-- A time that is written to memory and read back is the same.
decode-encode_timespec : (n : ℕ) → n < 2 ^ 64 → decode_timespec (encode_timespec n) ≡ ok n
unfolding encode_timespec
decode-encode_timespec n h =
    decode_timespec_lem (n / 1000000000) (n % 1000000000) (omega arith) (omega arith) ∙ ground arith

itimerspec-halves :
    (a b : ℕ)
    → (take 16 (write_user_itimerspec a b) ≡ encode_timespec a)
      × (take 16 (drop 16 (write_user_itimerspec a b)) ≡ encode_timespec b)
unfolding write_user_itimerspec encode_timespec to_bytes
itimerspec-halves a b = (refl, refl)

-- The interval and the value that are written to user memory are read back the same, each in its
-- place.
read-write_user_itimerspec :
    (a b : ℕ)
    → a < 2 ^ 64
    → b < 2 ^ 64
    → read_user_itimerspec (write_user_itimerspec a b) ≡ ok (a, b)
unfolding read_user_itimerspec
read-write_user_itimerspec a b h k =
    let (l, r) = itimerspec-halves a b in
    let ea : decode_timespec (take 16 (write_user_itimerspec a b)) ≡ ok a =
      ap decode_timespec l ∙ decode-encode_timespec a h in
    let eb : decode_timespec (take 16 (drop 16 (write_user_itimerspec a b))) ≡ ok b =
      ap decode_timespec r ∙ decode-encode_timespec b k in
    ap
      (λ x. x >>= λ interval.
        decode_timespec (take 16 (drop 16 (write_user_itimerspec a b))) >>= λ value.
        ok (interval, value))
      ea
    ∙ ap (λ x. x >>= λ value. ok (a, value)) eb
