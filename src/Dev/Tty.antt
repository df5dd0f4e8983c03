-- ===== src/Dev/Tty.antt =====
-- kernel/src/dev/tty.rs: the settings, the state and the small tests of a terminal.
pub mod Queue
pub mod Echo
pub mod Input
pub mod Counts
pub mod Read
pub mod Settings
mod Tests
use Prim.Native.Nat.{bit_and}
use roanix.Prelude.{
  ℕ, ◌-◌, Bool, true, false, not, ◌&&◌, ◌||◌, List, [], ◌∷◌, get_or, ltb, ◌==◌, if◌then◌else◌,
}

abbrev pub input_capacity : ℕ
input_capacity = 4096

abbrev pub echo_capacity : ℕ
echo_capacity = 4096

-- Indices of the control characters.
abbrev pub vintr : ℕ
vintr = 0

abbrev pub vquit : ℕ
vquit = 1

abbrev pub verase : ℕ
verase = 2

abbrev pub vkill : ℕ
vkill = 3

abbrev pub veof : ℕ
veof = 4

abbrev pub vstart : ℕ
vstart = 8

abbrev pub vstop : ℕ
vstop = 9

abbrev pub vsusp : ℕ
vsusp = 10

abbrev pub veol : ℕ
veol = 11

abbrev pub vreprint : ℕ
vreprint = 12

abbrev pub vdiscard : ℕ
vdiscard = 13

abbrev pub vwerase : ℕ
vwerase = 14

abbrev pub vlnext : ℕ
vlnext = 15

abbrev pub veol2 : ℕ
veol2 = 16

-- Input flags.
abbrev pub istrip : ℕ
istrip = 32

abbrev pub inlcr : ℕ
inlcr = 64

abbrev pub igncr : ℕ
igncr = 128

abbrev pub icrnl : ℕ
icrnl = 256

abbrev pub ixon : ℕ
ixon = 1024

abbrev pub ixany : ℕ
ixany = 2048

abbrev pub imaxbel : ℕ
imaxbel = 8192

abbrev pub iutf8 : ℕ
iutf8 = 16384

-- Output and control flags.
abbrev pub opost : ℕ
opost = 1

abbrev pub onlcr : ℕ
onlcr = 4

abbrev pub cread : ℕ
cread = 128

-- Local flags.
abbrev pub isig : ℕ
isig = 1

abbrev pub icanon : ℕ
icanon = 2

abbrev pub echo_flag : ℕ
echo_flag = 8

abbrev pub echoe : ℕ
echoe = 16

abbrev pub echok : ℕ
echok = 32

abbrev pub echonl : ℕ
echonl = 64

abbrev pub noflsh : ℕ
noflsh = 128

abbrev pub echoctl : ℕ
echoctl = 512

abbrev pub echoke : ℕ
echoke = 2048

abbrev pub flusho : ℕ
flusho = 4096

abbrev pub iexten : ℕ
iexten = 32768

pub record Termios : Type 0 where
  pub input_flags : ℕ
  pub output_flags : ℕ
  pub control_flags : ℕ
  pub local_flags : ℕ
  pub line : ℕ
  pub control : List ℕ
  pub input_baud : ℕ
  pub output_baud : ℕ

pub data InputItem : Type 0 where
  byte : ℕ → InputItem
  eof : InputItem

-- The fields that the line discipline reads or writes.
pub record TtyState : Type 0 where
  pub termios : Termios
  pub input : List InputItem
  pub echo : List ℕ
  pub canonical_ready : ℕ
  pub input_bytes : ℕ
  pub literal_next : Bool
  pub output_stopped : Bool
  pub interrupted : Bool
  pub hung_up : Bool

-- `flags & bits != 0`
unfoldable pub any_flag : ℕ → ℕ → Bool
any_flag flags bits = not (bit_and flags bits == 0)

-- `flags & bits == bits`
unfoldable pub all_flags : ℕ → ℕ → Bool
all_flags flags bits = bit_and flags bits == bits

-- `flags & !bits`
unfoldable pub without : ℕ → ℕ → ℕ
without flags bits = flags - bit_and flags bits

unfoldable pub control_matches : Termios → ℕ → ℕ → Bool
control_matches t index b = not (get_or t.control index 0 == 0) && b == get_or t.control index 0

unfoldable pub is_control : ℕ → Bool
is_control b = ltb b 32 && not (b == 10 || b == 9) || b == 127

unfoldable pub is_delimiter : InputItem → Termios → Bool
is_delimiter eof t = true
is_delimiter (byte b) t =
    b == 10
    || (not (get_or t.control veol 0 == 0) && b == get_or t.control veol 0)
    || (any_flag t.local_flags iexten
        && not (get_or t.control veol2 0 == 0)
        && b == get_or t.control veol2 0)

unfoldable pub input_ready : TtyState → Bool
input_ready s =
    if any_flag s.termios.local_flags icanon
    then not (s.canonical_ready == 0)
    else not (s.input_bytes == 0)
