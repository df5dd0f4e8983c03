-- ===== src/Dev/Tty/Settings/Memory.antt =====
-- kernel/src/dev/tty.rs: settings that are written to memory are read back.
use roanix.Prelude.{
  ℕ, zero, suc, ◌+◌, ◌<◌, ◌^◌, ◌≡◌, refl, ap, ◌∙◌, List, [], ◌∷◌, ◌++◌, length, length-append, take,
  drop, replicate, zero-add, suc-add, ◌>>=◌, ok, arith,
}
use roanix.Prelude.Bytes.{to_bytes, from_bytes, from-to_bytes}
use roanix.Dev.Tty.{Termios}
use roanix.Dev.Tty.Settings.{
  WinSize, encode, decode, decoded, encode_winsize, decode_winsize, word_at,
}

-- The fields fit their types.
pub record IsTermios (t : Termios) : Type 0 where
  pub input_fits : t.input_flags < 2 ^ 32
  pub output_fits : t.output_flags < 2 ^ 32
  pub control_fits : t.control_flags < 2 ^ 32
  pub local_fits : t.local_flags < 2 ^ 32
  pub control_size : length t.control ≡ 32
  pub input_baud_fits : t.input_baud < 2 ^ 32
  pub output_baud_fits : t.output_baud < 2 ^ 32

take-prefix : (n : ℕ) (xs ys : List ℕ) → length xs ≡ n → take n (xs ++ ys) ≡ xs
take-prefix zero [] ys e = refl
take-prefix zero (x ∷ xs) ys e = let no : 0 < 0 = omega (arith, e) in elim no [ ]
take-prefix (suc n) [] ys e = let no : 0 < 0 = omega (arith, e) in elim no [ ]
take-prefix (suc n) (x ∷ xs) ys e = ap (λ t. x ∷ t) (take-prefix n xs ys (omega (arith, e)))

drop-prefix : (n m : ℕ) (xs ys : List ℕ) → length xs ≡ n → drop (n + m) (xs ++ ys) ≡ drop m ys
drop-prefix zero m [] ys e = rw zero-add
drop-prefix zero m (x ∷ xs) ys e = let no : 0 < 0 = omega (arith, e) in elim no [ ]
drop-prefix (suc n) m [] ys e = let no : 0 < 0 = omega (arith, e) in elim no [ ]
drop-prefix (suc n) m (x ∷ xs) ys e = rw suc-add (drop-prefix n m xs ys (omega (arith, e)))

-- A window size that is written to memory is read back the same.
pub decode-encode_winsize :
    (w : WinSize)
    → w.rows < 2 ^ 16
    → w.columns < 2 ^ 16
    → w.x_pixels < 2 ^ 16
    → w.y_pixels < 2 ^ 16
    → (encode_winsize w 8 >>= decode_winsize) ≡ ok w
unfolding encode_winsize decode_winsize word_at to_bytes from_bytes
decode-encode_winsize w r c x y = ground (arith, r, c, x, y)

-- What `encode` writes ahead of the control characters and behind them.
abbrev front : Termios → List ℕ
front t =
    to_bytes 4 t.input_flags
    ++ to_bytes 4 t.output_flags
    ++ to_bytes 4 t.control_flags
    ++ to_bytes 4 t.local_flags
    ++ t.line ∷ []

abbrev back : Termios → List ℕ
back t = replicate 3 0 ++ to_bytes 4 t.input_baud ++ to_bytes 4 t.output_baud

encode_lem : (t : Termios) → encode t 60 ≡ ok (front t ++ t.control ++ back t)
unfolding encode to_bytes
encode_lem t = refl

decode_fits : (input : List ℕ) → length input ≡ 60 → decode input ≡ ok (decoded input)
unfolding decode
decode_fits input e = ground (arith, e)

decoded-encoded : (t : Termios) → IsTermios t → decoded (front t ++ t.control ++ back t) ≡ t
unfolding decoded word_at to_bytes from_bytes
decoded-encoded t h =
    let c = take-prefix 32 t.control (back t) h.control_size in
    let d3 = drop-prefix 32 3 t.control (back t) h.control_size in
    let d7 = drop-prefix 32 7 t.control (back t) h.control_size in
    ground (
      arith,
      c,
      ap from_bytes (ap (take 4) d3),
      ap from_bytes (ap (take 4) d7),
      from-to_bytes 4 t.input_flags h.input_fits,
      from-to_bytes 4 t.output_flags h.output_fits,
      from-to_bytes 4 t.control_flags h.control_fits,
      from-to_bytes 4 t.local_flags h.local_fits,
      from-to_bytes 4 t.input_baud h.input_baud_fits,
      from-to_bytes 4 t.output_baud h.output_baud_fits,
    )

-- Settings whose fields fit their types, written to memory, are read back the same.
pub decode-encode : (t : Termios) → IsTermios t → (encode t 60 >>= decode) ≡ ok t
unfolding to_bytes
decode-encode t h =
    let e = encode_lem t in
    let n : length (front t ++ t.control ++ back t) ≡ 60 =
      omega (arith, h.control_size, length-append t.control (back t)) in
    ap (λ r. r >>= decode) e ∙ decode_fits _ n ∙ ap ok (decoded-encoded t h)
