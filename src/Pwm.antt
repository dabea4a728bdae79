-- ===== src/Pwm.antt =====
-- PwmGpio.h and PwmGpio.cpp: `CPwmGpio`, a pin that a periodic timer toggles. A method that writes
-- to the pin takes the registers; `none` is a store through the unmapped registers.
pub mod Laws
use gest_aqua.Prelude.{Option, if◌then◌else◌, leb, ltb, pos, some, sub_u64, to_u64, ℕ, ◌&&◌, ◌*◌}
use gest_aqua.Prelude.{◌/◌, ◌==◌, ◌>>=◌}
use gest_aqua.Double.{Double}
use gest_aqua.Gpio.{Gpio, g_bank, g_pin, gpio_output, gpio_write}
use gest_aqua.Thread.{Os}
use gest_aqua.Timer.{CTimer, micro_sec, set_callback, set_duree, start, stop, time_periodic}

-- The callback of the timer is `CallbackTimerPwmGpio` on the object itself.
pub data PwmCallback : Type 0 where
  gestion : PwmCallback

pub record PwmGpio (D : Type 0) : Type 0 where
  pub timer : CTimer PwmCallback
  pub etat : ℕ
  pub gpio : ℕ
  pub frequence : ℕ
  pub rapport : D
  pub usec_haut : ℕ
  pub usec_bas : ℕ
  pub usec_period : ℕ

-- HZ and KHz
abbrev pub khz : ℕ
khz = 1000

module _ (F : Double) where
  open F use {Val, of_ℤ, tenths, mul, div, lt, to_u64}

  -- `SetRapportCyclique`
  unfoldable pub set_rapport : Val → PwmGpio Val → PwmGpio Val
  unfolding set_duree
  set_rapport d p =
      let r = if lt (of_ℤ (pos 0)) d && lt d (of_ℤ (pos 100)) then d else tenths (pos 500) in
      let haut = to_u64 (div (mul (of_ℤ (pos p.usec_period)) r) (of_ℤ (pos 100))) in
      record p {
        rapport = r;
        usec_haut = haut;
        usec_bas = sub_u64 p.usec_period haut;
        timer = set_duree haut p.timer;
      }

  -- `iInit` on the object and the registers.
  unfoldable pub i_init : ℕ → ℕ → Val → PwmGpio Val → Gpio → Option (PwmGpio Val × Gpio)
  unfolding set_rapport gpio_output gpio_write
  i_init num freq d p g = do
    g1 ← gpio_output (g_bank num) (g_pin num) g
    let f = if ltb 0 freq && leb freq (10 * khz) then freq else khz
    let q = set_rapport d (record p { gpio = num; frequence = f; usec_period = micro_sec / f })
    g2 ← gpio_write (g_bank num) (g_pin num) 0 g1
    some (record q { etat = 0 }, g2)

  -- `iStart` and `iStop`
  unfoldable pub i_start : Os → PwmGpio Val → PwmGpio Val
  unfolding start set_callback
  i_start os p = record p {
    timer = start os p.usec_haut time_periodic (set_callback gestion p.timer);
  }

  unfoldable pub i_stop : PwmGpio Val → PwmGpio Val
  unfolding stop
  i_stop p = record p { timer = (stop p.timer).0 }

  -- `GestionPwm`, which the timer calls each time its duration is over.
  unfoldable pub gestion_pwm : PwmGpio Val → Gpio → Option (PwmGpio Val × Gpio)
  unfolding gpio_write
  gestion_pwm p g = do
    let etat = if p.etat == 0 then 1 else 0
    g1 ← gpio_write (g_bank p.gpio) (g_pin p.gpio) etat g
    some (record p { etat = etat }, g1)
