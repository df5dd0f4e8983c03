-- ===== src/Dev/Tty/Settings.antt =====
-- kernel/src/dev/tty.rs: the settings of a terminal, their form in memory, and serial speeds.
pub mod Memory
pub mod Speeds
use Prim.Native.Nat.{bit_and, bit_or}
use roanix.Prelude.{
  ℕ, ◌*◌, ◌-◌, Bool, true, false, not, Option, none, some, List, [], ◌∷◌, ◌++◌, length, take, drop,
  get_or, replicate, ◌==◌, if◌then◌else◌, Result, ok, err, ok_or, ◌>>=◌,
}
use roanix.Prelude.Bytes.{to_bytes, from_bytes}
use roanix.Dev.Tty.{Termios, TtyState, any_flag, without}
use roanix.Dev.Tty.Queue.{clear_input, recalculate_canonical_ready}
use roanix.Fs.Error.{Error, invalid_argument}

abbrev pub termios_size : ℕ
termios_size = 60

abbrev pub winsize_size : ℕ
winsize_size = 8

abbrev pub csize : ℕ
csize = 48

abbrev pub cstopb : ℕ
cstopb = 64

abbrev pub parenb : ℕ
parenb = 256

abbrev pub parodd : ℕ
parodd = 512

abbrev pub cbaud : ℕ
cbaud = 4111

-- The codes and the rates of the two `match` tables.
abbrev pub speeds : List (ℕ × ℕ)
speeds =
    (1, 50)
    ∷ (2, 75)
    ∷ (3, 110)
    ∷ (4, 134)
    ∷ (5, 150)
    ∷ (6, 200)
    ∷ (7, 300)
    ∷ (8, 600)
    ∷ (9, 1200)
    ∷ (10, 1800)
    ∷ (11, 2400)
    ∷ (12, 4800)
    ∷ (13, 9600)
    ∷ (14, 19200)
    ∷ (15, 38400)
    ∷ (4097, 57600)
    ∷ (4098, 115200)
    ∷ (4099, 230400)
    ∷ (4100, 460800)
    ∷ (4101, 500000)
    ∷ (4102, 576000)
    ∷ (4103, 921600)
    ∷ (4104, 1000000)
    ∷ (4105, 1152000)
    ∷ (4106, 1500000)
    ∷ (4107, 2000000)
    ∷ (4108, 2500000)
    ∷ (4109, 3000000)
    ∷ (4110, 3500000)
    ∷ (4111, 4000000)
    ∷ []

unfoldable pub rate_in : List (ℕ × ℕ) → ℕ → Option ℕ
rate_in [] code = none
rate_in ((c, r) ∷ rows) code = if c == code then some r else rate_in rows code

unfoldable pub code_in : List (ℕ × ℕ) → ℕ → Option ℕ
code_in [] baud = none
code_in ((c, r) ∷ rows) baud = if r == baud then some c else code_in rows baud

unfoldable pub baud_rate : ℕ → Option ℕ
baud_rate = rate_in speeds

unfoldable pub baud_code : ℕ → Option ℕ
baud_code = code_in speeds

-- `Termios::default`
unfoldable pub standard : Termios
standard = record {
  input_flags = 1280;
  output_flags = 5;
  control_flags = 2237;
  local_flags = 35387;
  line = 0;
  control =
      3 ∷ 28 ∷ 127 ∷ 21 ∷ 4 ∷ 0 ∷ 1 ∷ 0 ∷ 17 ∷ 19 ∷ 26 ∷ 0 ∷ 18 ∷ 15 ∷ 23 ∷ 22 ∷ replicate 16 0;
  input_baud = 9600;
  output_baud = 9600;
}

-- The settings for a rate with a given code.
unfoldable pub at_speed : ℕ → ℕ → Termios
at_speed code baud = record standard {
  control_flags = bit_or (without standard.control_flags cbaud) code;
  input_baud = baud;
  output_baud = baud;
}

-- `?` on the code.
unfoldable pub with_code : Option ℕ → ℕ → Option Termios
with_code none baud = none
with_code (some code) baud = some (at_speed code baud)

unfoldable pub with_baud : ℕ → Option Termios
with_baud baud = with_code (baud_code baud) baud

pub record SerialSettings : Type 0 where
  pub baud : ℕ
  pub data_bits : ℕ
  pub stop_bits : ℕ
  pub parity : Bool
  pub odd_parity : Bool

unfoldable pub data_bits_of : ℕ → Result Error ℕ
data_bits_of flags =
    if flags == 0
    then ok 5
    else if flags == 16
    then ok 6
    else if flags == 32
    then ok 7
    else if flags == 48
    then ok 8
    else err invalid_argument

unfoldable pub serial_settings : Termios → Result Error SerialSettings
serial_settings t = data_bits_of (bit_and t.control_flags csize) >>= λ bits.
    ok_or (baud_rate (bit_and t.control_flags cbaud)) invalid_argument >>= λ rate. ok (record {
      baud = rate;
      data_bits = bits;
      stop_bits = if any_flag t.control_flags cstopb then 2 else 1;
      parity = any_flag t.control_flags parenb;
      odd_parity = any_flag t.control_flags parodd;
    })

-- What `encode` writes to a buffer of some length.
unfoldable pub encode : Termios → ℕ → Result Error (List ℕ)
encode t len =
    if not (len == termios_size)
    then err invalid_argument
    else ok (
        to_bytes 4 t.input_flags
        ++ to_bytes 4 t.output_flags
        ++ to_bytes 4 t.control_flags
        ++ to_bytes 4 t.local_flags
        ++ (t.line ∷ t.control)
        ++ (replicate 3 0 ++ to_bytes 4 t.input_baud ++ to_bytes 4 t.output_baud))

unfoldable pub word_at : ℕ → ℕ → List ℕ → ℕ
word_at width offset bytes = from_bytes (take width (drop offset bytes))

unfoldable pub decoded : List ℕ → Termios
decoded input = record {
  input_flags = word_at 4 0 input;
  output_flags = word_at 4 4 input;
  control_flags = word_at 4 8 input;
  local_flags = word_at 4 12 input;
  line = get_or input 16 0;
  control = take 32 (drop 17 input);
  input_baud = word_at 4 52 input;
  output_baud = word_at 4 56 input;
}

unfoldable pub decode : List ℕ → Result Error Termios
decode input =
    if not (length input == termios_size) then err invalid_argument else ok (decoded input)

pub record WinSize : Type 0 where
  pub rows : ℕ
  pub columns : ℕ
  pub x_pixels : ℕ
  pub y_pixels : ℕ

unfoldable pub encode_winsize : WinSize → ℕ → Result Error (List ℕ)
encode_winsize w len =
    if not (len == winsize_size)
    then err invalid_argument
    else ok (
        to_bytes 2 w.rows ++ to_bytes 2 w.columns ++ to_bytes 2 w.x_pixels ++ to_bytes 2 w.y_pixels)

unfoldable pub decode_winsize : List ℕ → Result Error WinSize
decode_winsize input =
    if not (length input == winsize_size)
    then err invalid_argument
    else ok (record {
      rows = word_at 2 0 input;
      columns = word_at 2 2 input;
      x_pixels = word_at 2 4 input;
      y_pixels = word_at 2 6 input;
    })

-- What `apply_termios` does to the state once the backend took the settings.
unfoldable pub apply_termios : Termios → Bool → TtyState → TtyState
apply_termios t flush_input s =
    let q = if flush_input then record (clear_input s) { interrupted = false } else s in
    recalculate_canonical_ready (record q { termios = t })
