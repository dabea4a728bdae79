-- ===== src/Planner/Daily.antt =====
-- The first second of a day: the built-in plans are read, and each is made to wait or launched.
use gest_aqua.Prelude.{All, Option, ap, arith, eq_ℤ, false, if◌then◌else◌, inl, length, ltb, pos}
use gest_aqua.Prelude.{refl, some, subst, sym, true, ℕ, ℤ, ◌*◌, ◌+ℤ◌, ◌-ℤ◌, ◌-◌, ◌<◌, ◌==◌, ◌∙◌}
use gest_aqua.Prelude.{◌≡◌}
use gest_aqua.Config.{max_planif_profil}
use gest_aqua.Config.Change.{default_planifs, pst_init_lem}
use gest_aqua.Config.Init.{Memcmp, pst_init}
use gest_aqua.Double.{Double}
use gest_aqua.Planner.{Callback, Env, MainTask, i_init_planification, start_profil}
use gest_aqua.Planner.Day.{AllApart, IsPlanned, i_init_planification_lem, last_day-plan_slots}
use gest_aqua.Planner.Main.{Now, day_tick}
use gest_aqua.Planner.Plan.{InRange, Near, armed, planned}

module _ (F : Double) (cmp : Memcmp F.Val) (env : Env F.Val) where
  -- `day_tick` on a day that is not the last one, with the table of plans of the right size.
  pub day_tick-new :
      (now : Now) (day : ℤ) (w : MainTask F.Val)
      → now.yday ≡ some day
      → eq_ℤ day w.last_day ≡ false
      → day_tick F cmp env now w
        ≡ (i_init_planification env now.offset true
            (record w { last_day = day; params = (pst_init F cmp w.params).0 })).0
  unfolding day_tick pst_init
  day_tick-new now day w e ne = rw (e, ne) refl

  -- The plan with a number, which is 1 or 2, at a time of the day.
  planned_first :
      (off : ℕ) (old : Option (ℕ × Option Callback))
      → All
          (λ d. planned (pos off) d old ≡ (
            if d.numero_planif == 1
            then (if ltb off 28800
                then some ((28800 - off) * 1000000, some (start_profil 1))
                else if ltb off 72000
                then some (100, some (start_profil 1))
                else old)
            else if ltb off 72000
            then some ((72000 - off) * 1000000, some (start_profil 2))
            else if ltb off 115200
            then some (100, some (start_profil 2))
            else old))
          (default_planifs F)
  unfolding ◌-ℤ◌ ◌+ℤ◌
  planned_first off old = (ground arith, (ground arith, tt))

  pub Near-default : (off : ℕ) → All (Near (pos off)) (default_planifs F)
  unfolding ◌-ℤ◌
  Near-default off = (ground arith, (ground arith, tt))

  pub AllApart-default : AllApart env (default_planifs F)
  AllApart-default = ((inl (λ e. absurd (omega arith)), tt), (tt, tt))

  init-default :
      (off : ℕ) (w : MainTask F.Val)
      → w.params.planifs ≡ default_planifs F
      → InRange w
      → All
          (IsPlanned env (pos off) w (i_init_planification env (pos off) true w).0)
          (default_planifs F)
  init-default off w e h =
      subst (All (IsPlanned env (pos off) w (i_init_planification env (pos off) true w).0)) e
        (i_init_planification_lem env (pos off) w (subst (AllApart env) (sym e) AllApart-default)
          (subst (All (Near (pos off))) (sym e) (Near-default off)) h).0

  -- At the first second of a new day, `off` seconds after midnight, the two built-in plans are made
  -- to wait: under number 1 the launch waits for 8 h, comes after 100 microseconds between 8 h and
  -- 20 h, and is what it was after 20 h; under number 2 the launch waits for 20 h, also between 0 h
  -- and 8 h, when the plan that began the day before still has time to run, and comes after 100
  -- microseconds after 20 h. The table of plans has its size and the launches that wait are those of
  -- timers that exist.
  pub day_tick_lem :
      (now : Now) (day : ℤ) (off : ℕ) (w : MainTask F.Val)
      → now.yday ≡ some day
      → eq_ℤ day w.last_day ≡ false
      → now.offset ≡ pos off
      → off < 86400
      → length w.params.planifs ≡ max_planif_profil
      → InRange w
      → let w' = day_tick F cmp env now w in
        (armed w' 1 ≡ (
          if ltb off 28800
          then some ((28800 - off) * 1000000, some (start_profil 1))
          else if ltb off 72000
          then some (100, some (start_profil 1))
          else armed w 1))
        × (armed w' 2 ≡ (
            if ltb off 72000
            then some ((72000 - off) * 1000000, some (start_profil 2))
            else some (100, some (start_profil 2))))
        × (w'.last_day ≡ day)
  unfolding i_init_planification
  day_tick_lem now day off w new ne o lt n h =
      let w0 = record w { last_day = day; params = (pst_init F cmp w.params).0 } in
      let built = pst_init_lem F cmp w.params n in
      let waits = init-default off w0 (ap (λ p. p.0.planifs) built.1 ∙ built.3) h in
      let first = planned_first off (armed w 1) in
      let second = planned_first off (armed w 2) in
      let kept = last_day-plan_slots env (pos off) w0.params.planifs w0 in
      rw (day_tick-new now day w new ne, o)
        (waits.0 ∙ first.0, waits.1.0 ∙ second.1.0 ∙ ground arith, kept)
