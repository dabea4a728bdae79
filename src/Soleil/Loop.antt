-- ===== src/Soleil/Loop.antt =====
-- `CSoleil::Thread`: the lamp stays valid over any number of rounds.
use gest_aqua.Prelude.{Bool-cases, List, Option, [], eq_ℤ, false, inl, inr, negsuc, refl, some}
use gest_aqua.Prelude.{ℤ, ◌∷◌, ◌≡◌}
use gest_aqua.Double.{Double}
use gest_aqua.Pwm.{i_start, i_stop}
use gest_aqua.Soleil.{Soleil, soleil_tick, thread_soleil}
use gest_aqua.Soleil.Laws.{IsValid, gerer_courbe-IsValid}
use gest_aqua.Thread.{Os, Round, select_loop}
use gest_aqua.Thread.Laws.{Next-cases, select_loop-keeps}

module _ (F : Double) where
  open F use {Val}

  -- A lamp that has read nothing past its curve and is valid.
  abbrev pub IsLit : Option (Soleil Val) → Type 0
  IsLit lamp = (s : Soleil Val) × (lamp ≡ some s) × IsValid s

  soleil_tick-IsLit :
      (st : Option (Soleil Val) × List ℤ) → IsLit st.0 → IsLit (soleil_tick F st).0.0
  unfolding soleil_tick
  soleil_tick-IsLit (lamp, []) h = h
  soleil_tick-IsLit (lamp, off ∷ offs) (s, e, v) =
      let (t, run, valid, _, _) = gerer_courbe-IsValid F off s v in rw e (t, run, valid)

  -- Whatever the rounds of `select` and the times of day are, `Thread` of a valid lamp reads no
  -- segment past its curve, and leaves a valid lamp.
  pub thread_soleil-IsValid :
      (os : Os) (rounds : List Round) (offs : List ℤ) (s : Soleil Val)
      → IsValid s
      → (t : Soleil Val) × ((thread_soleil F os rounds offs s).0 ≡ some t) × IsValid t
  unfolding thread_soleil
  thread_soleil-IsValid os rounds offs s v = elim (Bool-cases (eq_ℤ s.thread.pipe_r (negsuc 0))) [
    | inl e ↦ rw e (s, refl, v)
    | inr e ↦
        let on : Soleil Val = record s { pwm = i_start F os s.pwm } in
        let von : IsValid on = record { fits = v.fits; index_in = v.index_in } in
        let (t, et, vt) =
          select_loop-keeps (λ st. IsLit st.0) false (soleil_tick F) rounds (some on, offs)
            soleil_tick-IsLit (on, refl, von) in
        elim (Next-cases (select_loop false (soleil_tick F) rounds (some on, offs)).1) [
          | inl n ↦ rw (e, n, et) (t, refl, vt)
          | inr n ↦
              rw (e, n, et)
                (
                  record t { pwm = i_stop F t.pwm },
                  refl,
                  record { fits = vt.fits; index_in = vt.index_in },
                )
        ]
  ]
