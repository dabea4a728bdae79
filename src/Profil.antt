-- ===== src/Profil.antt =====
-- Profil.h and Profil.cpp: `CProfil`, the thread of a running profile, which owns its `CSoleil`.
-- `none` is a store through the unmapped registers when the lamp is built.
pub mod Lamps
use gest_aqua.Prelude.{List, Option, [], eq_ℤ, false, if◌then◌else◌, negsuc, none, not, pos}
use gest_aqua.Prelude.{some, true, ℕ, ℤ, ◌==◌, ◌>>=◌, ◌||◌, ◌∷◌}
use gest_aqua.Config.{ParamProfil, ParametreAppli}
use gest_aqua.Double.{Double}
use gest_aqua.Gpio.{Gpio}
use gest_aqua.Pwm.{PwmGpio}
use gest_aqua.Soleil.{Soleil, new_soleil}
use gest_aqua.Thread.{CThread, Next, Os, Round, again, create, leave, select_loop, set_arret}

pub record Profil (D : Type 0) : Type 0 where
  pub thread : CThread
  pub lampe : Option (Soleil D)
  pub param : ParamProfil D
  pub numero : ℕ
  pub debut : ℤ
  pub duree : ℤ

module _ {D : Type 0} where
  -- The loop of `iInit`: each profile with the number is copied over the one before.
  unfoldable pub copy_param : ℕ → List (ParamProfil D) → ParamProfil D → ParamProfil D
  copy_param numero [] p = p
  copy_param numero (q ∷ qs) p = copy_param numero qs (if q.numero_profil == numero then q else p)

  -- `iInit`; the parameters are those of the main task, when there is one.
  unfoldable pub init_profil : Option (ParametreAppli D) → Profil D → Profil D × ℤ
  unfolding copy_param
  init_profil none p = (p, negsuc 0)
  init_profil (some params) p =
      if not (p.numero == 0)
      then (record p { param = copy_param p.numero params.profils p.param }, pos 0)
      else (p, negsuc 0)

  -- The constructor, on memory that holds `raw`.
  unfoldable pub new_profil : ℕ → Option (ParametreAppli D) → CThread → Profil D → Profil D
  unfolding init_profil
  new_profil numero main thread raw =
      (init_profil main (record raw {
        thread = record thread { auto_delete = true };
        lampe = none;
        numero = numero;
      })).0

  unfoldable pub set_debut : ℤ → Profil D → Profil D
  set_debut d p = record p { debut = d }

  unfoldable pub set_duree_profil : ℤ → Profil D → Profil D
  set_duree_profil d p = record p { duree = d }

  -- `Start`
  unfoldable pub start_thread : Os → Profil D → Profil D
  unfolding create
  start_thread os p =
      if p.thread.started || eq_ℤ p.duree (pos 0)
      then p
      else record p { thread = (create os false p.thread).0 }

  -- Asks the lamp to stop, and forgets it unless it deletes itself; the wait for its thread is left
  -- out.
  unfoldable pub stop_lampe : Soleil D → Option (Soleil D)
  unfolding set_arret
  stop_lampe s =
      let stopped = record s { thread = set_arret 1 s.thread } in
      if s.thread.auto_delete then some stopped else none

module _ (F : Double) where
  open F use {Val}

  -- What the constructor of `CSoleil` is given: the thread and the PWM that its bases build.
  pub record Parts : Type 0 where
    pub thread : CThread
    pub pwm : PwmGpio Val
    pub dx : Val

  -- The lamp that `iStartProfil` goes on with.
  unfoldable pub lampe_of : Parts → Profil Val → Gpio → Option (Option (Soleil Val) × Gpio)
  unfolding stop_lampe new_soleil
  lampe_of parts p g = elim (p.lampe) [
    | some s ↦ some (stop_lampe s, g)
    | none ↦ new_soleil F parts.thread parts.pwm parts.dx p.param.param_soleil g >>= λ r.
        some (some r.0, r.1)
  ]

  -- `iStartProfil`
  unfoldable pub start_profil : Os → Parts → Profil Val → Gpio → Option (Profil Val × Gpio × ℤ)
  unfolding lampe_of create
  start_profil os parts p g =
      if not (p.param.param_soleil.valide == 0)
      then (lampe_of parts p g >>= λ r. elim (r.0) [
        | none ↦ some (record p { lampe = none }, r.1, pos 0)
        | some s ↦ some (
          record p { lampe = some (record s { thread = (create os false s.thread).0 }) },
          r.1,
          pos 0,
        )
      ])
      else some (p, g, pos 0)

  -- `Thread`: the profile starts its lamp, waits until it is stopped, then stops the lamp.
  unfoldable pub thread_profil :
      Os → Parts → List Round → Profil Val → Gpio → Option (Profil Val × Gpio × Next)
  unfolding start_profil select_loop stop_lampe
  thread_profil os parts rounds p g =
      if eq_ℤ p.thread.pipe_r (negsuc 0)
      then some (p, g, leave)
      else (start_profil os parts p g >>= λ r.
          let q = r.0 in
          elim ((select_loop false (λ (u : Unit {0}). (u, again)) rounds tt).1) [
            | again ↦ some (q, r.1, again)
            | leave ↦ some (
              record q { lampe = elim (q.lampe) [ none ↦ none | some s ↦ stop_lampe s ] },
              r.1,
              leave,
            )
          ])
