-- ===== src/Pwm/Laws.antt =====
-- The duty that `SetRapportCyclique` accepts, and the times that the output spends high and low.
use gest_aqua.Prelude.{Bool, List, Option, [], ap, arith, false, if◌then◌else◌, leb, ltb, not}
use gest_aqua.Prelude.{pos, refl, some, suc, true, zero, ℕ, ◌&&◌, ◌*◌, ◌+◌, ◌/◌, ◌<◌, ◌==◌}
use gest_aqua.Prelude.{◌>>=◌, ◌^◌, ◌∙◌, ◌∷◌, ◌≡◌, ◌≤◌}
use gest_aqua.Double.{Double}
use gest_aqua.Gpio.{Gpio, g_bank, g_pin, gpio_output, gpio_write, store, write_word}
use gest_aqua.Pwm.{PwmCallback, PwmGpio, gestion_pwm, i_init, khz, set_rapport}
use gest_aqua.Timer.{CTimer, micro_sec, set_duree}

-- The period that the frequencies from 1 to 10000 Hz give.
period_bounds : (f : ℕ) → 1 ≤ f → f ≤ 10000 → (100 ≤ micro_sec / f) × (micro_sec / f ≤ micro_sec)
period_bounds f low high = (grind arith, grind arith)

-- The level of a pin after stores to the registers, the newest first: the set register of the bank
-- makes it high, the clear register low. It is low before.
abbrev pub level : ℕ → ℕ → List (ℕ × ℕ) → Bool
level bank pin [] = false
level bank pin ((word, value) ∷ stores) =
    let before = level bank pin stores in
    if value == 2 ^ pin
    then if word == 0x141 + bank * 4
      then true
      else if word == 0x142 + bank * 4
      then false
      else before
    else before

level-write :
    (bank pin value : ℕ) (stores : List (ℕ × ℕ))
    → level bank pin ((write_word bank value, 2 ^ pin) ∷ stores) ≡ not (value == 0)
level-write bank pin value stores = ground arith

module _ (F : Double) where
  open F use {Val, of_ℤ, tenths, mul, div, lt, to_u64}

  -- The duty kept lies strictly between 0 and 100 whatever is asked for, the high time is at most the
  -- period, the two times add up to the period, and the timer waits for the high time. The
  -- arithmetic has 0 < 50 < 100, and a share of the period below 100 % is at most the period.
  pub set_rapport_bounds :
      (d : Val) (p : PwmGpio Val)
      → lt (of_ℤ (pos 0)) (tenths (pos 500)) ≡ true
      → lt (tenths (pos 500)) (of_ℤ (pos 100)) ≡ true
      → ((r : Val)
          → lt r (of_ℤ (pos 100)) ≡ true
          → to_u64 (div (mul (of_ℤ (pos p.usec_period)) r) (of_ℤ (pos 100))) ≤ p.usec_period)
      → p.usec_period < 2 ^ 64
      → let q = set_rapport F d p in
        (lt (of_ℤ (pos 0)) q.rapport ≡ true)
        × (lt q.rapport (of_ℤ (pos 100)) ≡ true)
        × (q.usec_haut ≤ p.usec_period)
        × (q.usec_haut + q.usec_bas ≡ p.usec_period)
        × (q.timer.tps_usec ≡ q.usec_haut)
  unfolding set_rapport set_duree
  set_rapport_bounds d p low high share fits = ground (arith, share d, share (tenths (pos 500)))

  -- `iInit` on mapped registers enables the output of the pin, then clears it; the frequence is from
  -- 1 to 10000 Hz whatever is asked for, and the period from 100 to 1000000 microseconds.
  pub i_init_lem :
      (num freq : ℕ) (d : Val) (p : PwmGpio Val) (g : Gpio)
      → g.mapped ≡ true
      → (q : PwmGpio Val) × (i_init F num freq d p g
          ≡ some (
            q,
            record g {
              stores =
                  (0x140 + g_bank num * 4 + 2, 2 ^ g_pin num)
                  ∷ (0x1c1 + g_bank num * 4, 2 ^ g_pin num)
                  ∷ g.stores;
            },
          ))
        × (q.etat ≡ 0)
        × (q.gpio ≡ num)
        × (1 ≤ q.frequence)
        × (q.frequence ≤ 10000)
        × (100 ≤ q.usec_period)
        × (q.usec_period ≤ 1000000)
        × (q.usec_period ≡ micro_sec / (if ltb 0 freq && leb freq (10 * khz) then freq else khz))
  unfolding i_init set_rapport gpio_output gpio_write store
  i_init_lem num freq d p g m =
      let f = if ltb 0 freq && leb freq (10 * khz) then freq else khz in
      (
        record (set_rapport F d
            (record p { gpio = num; frequence = f; usec_period = micro_sec / f })) { etat = 0 },
        ground arith,
        ground arith,
        ground arith,
        ground arith,
        ground arith,
        ground (arith, period_bounds f),
        ground (arith, period_bounds f),
        refl,
      )

  -- What the output has done: the object, the registers, and the time spent high and low.
  pub record Trace : Type 0 where
    pub pwm : PwmGpio Val
    pub gpio : Gpio
    pub high : ℕ
    pub low : ℕ

  -- Whether the pin of the output is high.
  abbrev pub pin_level : Trace → Bool
  pin_level t = level (g_bank t.pwm.gpio) (g_pin t.pwm.gpio) t.gpio.stores

  -- The timer's duration goes by at the present level of the pin, and its callback toggles it.
  abbrev pub wait_and_toggle : Trace → Option Trace
  wait_and_toggle t = do
    let d = t.pwm.timer.tps_usec
    (p, g) ← gestion_pwm F t.pwm t.gpio
    some (record {
      pwm = p;
      gpio = g;
      high = if pin_level t then t.high + d else t.high;
      low = if pin_level t then t.low else t.low + d;
    })

  abbrev pub cycles : ℕ → Trace → Option Trace
  cycles zero t = some t
  cycles (suc n) t = (wait_and_toggle t >>= wait_and_toggle) >>= cycles n

  -- The registers are mapped, and the pin is as the object has it, which `iInit` sees to.
  abbrev pub IsShown : Trace → Type 0
  IsShown t = (t.gpio.mapped ≡ true) × (pin_level t ≡ not (t.pwm.etat == 0))

  -- One callback: the other level is shown, and the timer is as before.
  wait_and_toggle_lem :
      (t : Trace)
      → IsShown t
      → (u : Trace) × (wait_and_toggle t ≡ some u)
        × IsShown u
        × (u.pwm.timer ≡ t.pwm.timer)
        × (pin_level u ≡ not (pin_level t))
        × (u.high ≡ (if pin_level t then t.high + t.pwm.timer.tps_usec else t.high))
        × (u.low ≡ (if pin_level t then t.low else t.low + t.pwm.timer.tps_usec))
  unfolding gestion_pwm gpio_write store
  wait_and_toggle_lem t (m, shown) =
      let d = t.pwm.timer.tps_usec in
      let e : ℕ = if t.pwm.etat == 0 then 1 else 0 in
      let b = g_bank t.pwm.gpio in
      let pin = g_pin t.pwm.gpio in
      let now = level-write b pin e t.gpio.stores in
      let other : not (e == 0) ≡ not (pin_level t) = ground arith in
      (
        record {
          pwm = record (t.pwm) { etat = e };
          gpio = record (t.gpio) { stores = (write_word b e, 2 ^ pin) ∷ t.gpio.stores };
          high = if pin_level t then t.high + d else t.high;
          low = if pin_level t then t.low else t.low + d;
        },
        rw m refl,
        (m, now),
        refl,
        now ∙ other,
        refl,
        refl,
      )

  -- Two callbacks: the same time is spent at each level.
  pair :
      (t : Trace)
      → IsShown t
      → (u : Trace) × ((wait_and_toggle t >>= wait_and_toggle) ≡ some u)
        × IsShown u
        × (u.pwm.timer ≡ t.pwm.timer)
        × (u.high ≡ t.high + t.pwm.timer.tps_usec)
        × (u.low ≡ t.low + t.pwm.timer.tps_usec)
  pair t shown =
      let (u, e, shown_u, timer, level_u, high, low) = wait_and_toggle_lem t shown in
      let (w, e', shown_w, timer', level_w, high', low') = wait_and_toggle_lem u shown_u in
      let same = ap (λ (c : CTimer PwmCallback). c.tps_usec) timer in
      (w, rw e e', shown_w, timer' ∙ timer, ground arith, ground arith)

  -- Over any number of cycles the timer keeps its duration, so the pin spends the same time high and
  -- low: that duration, once each in every cycle. The pin is high or low as the stores made to the set
  -- and clear registers of its bank leave it. The registers are mapped, and the pin is at first as the
  -- object has it.
  pub cycles_balanced :
      (n : ℕ) (t : Trace)
      → IsShown t
      → (u : Trace) × (cycles n t ≡ some u)
        × IsShown u
        × (u.pwm.timer ≡ t.pwm.timer)
        × (u.high ≡ t.high + n * t.pwm.timer.tps_usec)
        × (u.low ≡ t.low + n * t.pwm.timer.tps_usec)
  cycles_balanced zero t shown = (t, refl, shown, refl, omega arith, omega arith)
  cycles_balanced (suc n) t shown =
      let (u, e, shown_u, tu, hu, lu) = pair t shown in
      let (w, ew, shown_w, tw, hw, lw) = cycles_balanced n u shown_u in
      (
        w,
        rw e ew,
        shown_w,
        tw ∙ tu,
        ground (arith, ap (λ (c : CTimer PwmCallback). c.tps_usec) tu),
        ground (arith, ap (λ (c : CTimer PwmCallback). c.tps_usec) tu),
      )
