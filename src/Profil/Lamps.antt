-- ===== src/Profil/Lamps.antt =====
-- Profil.cpp: the lamp that a running profile owns.
use gest_aqua.Prelude.{List, arith, eq_ℤ, false, inl, inr, negsuc, none, pos, refl, some, true}
use gest_aqua.Prelude.{◌==◌, ◌∙◌, ◌∷◌, ◌≡◌}
use gest_aqua.Config.{ParamSoleil}
use gest_aqua.Double.{Double}
use gest_aqua.Gpio.{Gpio}
use gest_aqua.Profil.{Parts, Profil, lampe_of, start_profil, stop_lampe, thread_profil}
use gest_aqua.Pwm.{PwmGpio, i_init}
use gest_aqua.Pwm.Laws.{i_init_lem}
use gest_aqua.Soleil.{Soleil, gpio_16, new_soleil}
use gest_aqua.Thread.{CThread, Os, Round, again, create, leave}
use gest_aqua.Thread.Laws.{Next-cases, left_by, select_loop-left_by}

auto_delete-create : (os : Os) (t : CThread) → (create os false t).0.auto_delete ≡ t.auto_delete
unfolding create
auto_delete-create os t = ground arith

module _ {D : Type 0} where
  stop_lampe_lem : (s : Soleil D) → s.thread.auto_delete ≡ false → stop_lampe s ≡ none
  unfolding stop_lampe
  stop_lampe_lem s h = rw h refl

module _ (F : Double) where
  open F use {Val}

  -- The lamp that the constructor makes.
  abbrev pub new_lamp : Parts F → PwmGpio Val → ParamSoleil Val → Soleil Val
  new_lamp parts pwm param = record {
    thread = parts.thread;
    param = param;
    pwm = pwm;
    index = negsuc 0;
    intervalle_x = 1;
    dx = parts.dx;
  }

  start_profil_lem :
      (os : Os) (parts : Parts F) (p : Profil Val) (g g' : Gpio) (q : PwmGpio Val)
      → (p.param.param_soleil.valide == 0) ≡ false
      → p.lampe ≡ none
      → i_init F gpio_16 1000 (F.tenths (pos 10)) parts.pwm g ≡ some (q, g')
      → let s = new_lamp parts q p.param.param_soleil in
        start_profil F os parts p g
        ≡ some (
          record p { lampe = some (record s { thread = (create os false s.thread).0 }) },
          g',
          pos 0,
        )
  unfolding start_profil lampe_of new_soleil
  start_profil_lem os parts p g g' q curve dark made = rw (curve, dark, made) refl

  -- The thread of a profile with a solar curve and no lamp yet, on mapped registers and with a pipe,
  -- makes the pin 16 an output and clears it, makes a lamp on that curve, at no segment, with an
  -- output whose period is 1000 microseconds, and starts its thread; the profile has this lamp as long
  -- as it is not stopped, and none after. The lamp does not free itself.
  pub thread_profil_lem :
      (os : Os) (parts : Parts F) (rounds : List Round) (p : Profil Val) (g : Gpio)
      → eq_ℤ p.thread.pipe_r (negsuc 0) ≡ false
      → (p.param.param_soleil.valide == 0) ≡ false
      → p.lampe ≡ none
      → parts.thread.auto_delete ≡ false
      → g.mapped ≡ true
      → (s : Soleil Val) × (thread_profil F os parts rounds p g
          ≡ some (
            record p { lampe = elim (left_by rounds) [ again ↦ some s | leave ↦ none ] },
            record g { stores = (322, 65536) ∷ (449, 65536) ∷ g.stores },
            left_by rounds,
          ))
        × (s.param ≡ p.param.param_soleil)
        × (s.index ≡ negsuc 0)
        × (s.thread ≡ (create os false parts.thread).0)
        × (s.pwm.usec_period ≡ 1000)
  unfolding thread_profil
  thread_profil_lem os parts rounds p g open_pipe curve dark kept mapped =
      let made = i_init_lem F gpio_16 1000 (F.tenths (pos 10)) parts.pwm g mapped in
      let s0 = new_lamp parts made.0 p.param.param_soleil in
      let s = record s0 { thread = (create os false s0.thread).0 } in
      let lit =
        start_profil_lem os parts p g (record g { stores = (322, 65536) ∷ (449, 65536) ∷ g.stores })
          made.0 curve dark made.1 in
      let loop = select_loop-left_by (λ (u : Unit {0}). (u, again)) rounds tt (λ u. refl) in
      let off = stop_lampe_lem s (auto_delete-create os parts.thread ∙ kept) in
      (
        s,
        elim (Next-cases (left_by rounds)) [
          | inl e ↦ rw (open_pipe, lit, loop, e) refl
          | inr e ↦ rw (open_pipe, lit, loop, e, off) refl
        ],
        refl,
        refl,
        refl,
        made.8,
      )
