-- ===== src/Dev/Tty/Settings/Speeds.antt =====
-- kernel/src/dev/tty.rs: the tables of speeds, and the settings made from a speed.
use roanix.Prelude.{ℕ, ◌≡◌, refl, false, Option, none, some, List, [], ◌∷◌, ok, arith}
use roanix.Dev.Tty.{Termios, any_flag, without}
use roanix.Dev.Tty.Settings.{
  SerialSettings, speeds, rate_in, code_in, baud_rate, baud_code, standard, at_speed, with_code,
  with_baud, data_bits_of, serial_settings,
}

-- What the backend is asked for at a rate: eight data bits, one stop bit, no parity.
abbrev pub plain_settings : ℕ → SerialSettings
plain_settings rate = record {
  baud = rate;
  data_bits = 8;
  stop_bits = 1;
  parity = false;
  odd_parity = false;
}

-- Every row of a table leads to those settings.
abbrev AllServe : List (ℕ × ℕ) → Type 0
AllServe [] = Unit {0}
AllServe ((c, r) ∷ rows) = (serial_settings (at_speed c r) ≡ ok (plain_settings r)) × AllServe rows

speeds-AllServe : AllServe speeds
unfolding serial_settings at_speed standard data_bits_of baud_rate rate_in any_flag without
speeds-AllServe = (
  refl,
  (
    refl,
    (
      refl,
      (
        refl,
        (
          refl,
          (
            refl,
            (
              refl,
              (
                refl,
                (
                  refl,
                  (
                    refl,
                    (
                      refl,
                      (
                        refl,
                        (
                          refl,
                          (
                            refl,
                            (
                              refl,
                              (
                                refl,
                                (
                                  refl,
                                  (
                                    refl,
                                    (
                                      refl,
                                      (
                                        refl,
                                        (
                                          refl,
                                          (
                                            refl,
                                            (
                                              refl,
                                              (
                                                refl,
                                                (refl, (refl, (refl, (refl, (refl, (refl, tt)))))),
                                              ),
                                            ),
                                          ),
                                        ),
                                      ),
                                    ),
                                  ),
                                ),
                              ),
                            ),
                          ),
                        ),
                      ),
                    ),
                  ),
                ),
              ),
            ),
          ),
        ),
      ),
    ),
  ),
)

code_in-AllServe :
    (rows : List (ℕ × ℕ)) (baud code : ℕ)
    → AllServe rows
    → code_in rows baud ≡ some code
    → serial_settings (at_speed code baud) ≡ ok (plain_settings baud)
unfolding code_in
code_in-AllServe [] baud code h e = ground (arith, e)
code_in-AllServe ((c, r) ∷ rows) baud code h e =
    ground (arith, h.0, e, code_in-AllServe rows baud code h.1)

serial_settings-found :
    (o : Option ℕ) (baud : ℕ) (t : Termios)
    → code_in speeds baud ≡ o
    → with_code o baud ≡ some t
    → serial_settings t ≡ ok (plain_settings baud)
unfolding with_code
serial_settings-found none baud t c e = ground (arith, e)
serial_settings-found (some code) baud t c e =
    ground (arith, e, code_in-AllServe speeds baud code speeds-AllServe c)

-- The settings that a terminal makes from a speed it knows ask the backend for that very speed, with
-- eight data bits, one stop bit and no parity.
pub serial_settings-with_baud :
    (baud : ℕ) (t : Termios)
    → with_baud baud ≡ some t
    → serial_settings t ≡ ok (plain_settings baud)
unfolding with_baud baud_code
serial_settings-with_baud baud t e = serial_settings-found (code_in speeds baud) baud t refl e
