-- ===== src/Tests/Launches.antt =====
-- The theorems on the planning and the running of profiles, on a main task with the built-in plans.
use gest_aqua.Prelude.{All, List, [], arith, drop, inl, none, pos, pos_part, refl, some, true, ℕ}
use gest_aqua.Prelude.{◌%◌, ◌*◌, ◌+ℤ◌, ◌+◌, ◌-ℤ◌, ◌/◌, ◌↔◌, ◌∷◌, ◌≡◌, ◌≤◌}
use gest_aqua.AquaGest.{main}
use gest_aqua.AquaGest.Run.{main_lem, started}
use gest_aqua.Config.{DefPlanification, PlanificationTache, heure, profil}
use gest_aqua.Double.Exact.{exact}
use gest_aqua.General.{Libc, Tm, now_at}
use gest_aqua.General.Zones.{day_tick-now_at, seconds_of}
use gest_aqua.Planner.{Callback, i_init_planification, remaining_usec, start_profil}
use gest_aqua.Planner.Day.{IsPlanned, i_init_planification_lem}
use gest_aqua.Planner.EachDay.{plan_days, thread_main-plan_days}
use gest_aqua.Planner.Main.{Now, day_tick, release, thread_main}
use gest_aqua.Planner.Plan.{InRange, armed}
use gest_aqua.Planner.Stop.{remaining_usec_lem}
use gest_aqua.Tests.{compare_two, env, idle, main_task, os, params, registers, timer}
use gest_aqua.Thread.{Round, leave, set_arret, timeout}
use gest_aqua.Thread.Laws.{live}
use gest_aqua.Timer.{thread_timer}
use gest_aqua.Timer.Laws.{calls-thread_timer}

-- The C library at a place 21 hours ahead of Greenwich, that is 3 hours behind, where all years have
-- 365 days.
abbrev tm_at : ℕ → Tm
tm_at n = record {
  tm_hour = n % 86400 / 3600;
  tm_min = n % 3600 / 60;
  tm_sec = n % 60;
  tm_yday = pos (n / 86400 % 365);
  tm_rest = pos (n / 86400);
}

abbrev libc : Libc
libc = record {
  gmtime = λ t. some (tm_at (pos_part t));
  localtime = λ t. some (tm_at (pos_part t + 75600));
  mktime = λ tm. pos (pos_part tm.tm_rest * 86400 + seconds_of tm) -ℤ pos 75600;
}

day_tick-now_at_example :
    let w' = day_tick exact compare_two env (now_at libc 32 (pos 8640000)) main_task in
    (armed w' 1 ≡ none) × (armed w' 2 ≡ some (100, some (start_profil 2)))
unfolding ◌-ℤ◌ ◌+ℤ◌
day_tick-now_at_example =
    day_tick-now_at exact compare_two env libc 32 8640000 75600 (tm_at 8640000) (tm_at 8715600)
      main_task (inl refl)
      (
        refl,
        refl,
        refl,
        (
          omega arith,
          omega arith,
          omega arith,
          pos (100 * 86400) -ℤ pos 75600,
          (λ h m s lh lm ls. ground arith),
        ),
      )
      refl (omega arith) refl refl tt

-- The last second of the day 41, a second without a day, and the two first of the day 42.
abbrev midnight : List Now
midnight =
    record { yday = some (pos 41); offset = pos 86399 }
    ∷ record { yday = none; offset = pos 0 }
    ∷ record { yday = some (pos 42); offset = pos 1 }
    ∷ record { yday = some (pos 42); offset = pos 2 }
    ∷ []

abbrev second : Round
second = record { arret = 0; select = timeout; arret_after = 0 }

thread_main-plan_days_example :
    let rounds : List Round =
      second ∷ second ∷ second ∷ second ∷ record second { arret = 1 } ∷ [] in
    let days =
      plan_days exact compare_two env ((pos 41, pos 86399) ∷ (pos 42, pos 1) ∷ []) main_task in
    thread_main exact compare_two env rounds midnight main_task ≡ (release days, leave)
thread_main-plan_days_example =
    thread_main-plan_days exact compare_two env
      (second ∷ second ∷ second ∷ second ∷ record second { arret = 1 } ∷ []) midnight main_task refl

main_lem_example :
    let rounds : List Round = second ∷ second ∷ record second { arret = 1 } ∷ [] in
    let prog = main exact compare_two env os true idle params rounds (drop 1 midnight) registers in
    let start = started exact compare_two env idle params 3 4 in
    let last = release (plan_days exact compare_two env ((pos 42, pos 1) ∷ []) start) in
    (prog.waited ≡ true)
    × (prog.still ≡ leave)
    × (prog.task ≡ some (record last { thread = set_arret 2 start.thread }))
main_lem_example =
    main_lem exact compare_two env true idle params
      (second ∷ second ∷ record second { arret = 1 } ∷ []) (drop 1 midnight) registers 3 4 refl refl
      refl

i_init_planification_lem_example :
    let (w', err) = i_init_planification env (pos 36000) true main_task in
    All (IsPlanned env (pos 36000) main_task w') params.planifs
    × (err ≡ pos 0)
    × (w'.params.change.param_planif_profil ≡ 0)
    × (w'.params.planifs ≡ params.planifs)
    × InRange w'
unfolding ◌-ℤ◌
i_init_planification_lem_example =
    i_init_planification_lem env (pos 36000) main_task
      ((inl (λ e. absurd (omega arith)), tt), (tt, tt)) (omega arith, (omega arith, tt)) tt

-- The plan from 8 h for twelve hours.
abbrev pub plan : DefPlanification
plan = record {
  numero_planif = 1;
  numero_profil = 1;
  planif = record { etype = profil; debut = heure 8; period = heure 12; relance = pos 0 };
}

remaining_usec_lem_example :
    let p : PlanificationTache = record {
      etype = profil;
      debut = pos 28800;
      period = pos 43200;
      relance = pos 0;
    } in
    (remaining_usec 64 (pos 36000) p ≡ 36000 * 1000000)
    × ((remaining_usec 32 (pos 36000) p ≡ 36000 * 1000000) ↔ (36000 ≤ 2147))
remaining_usec_lem_example =
    remaining_usec_lem 36000 28800 43200 profil (pos 0) 36000 (omega arith) (omega arith)
      (omega arith) (omega arith) (omega arith)

calls-thread_timer_example :
    (thread_timer
      (record { arret = 0; select = timeout; arret_after = 0 } ∷ [])
      (timer {C = Callback} 0)).1
    ≡ 1
unfolding live
calls-thread_timer_example =
    calls-thread_timer (timer {C = Callback} 0)
      (record { arret = 0; select = timeout; arret_after = 0 } ∷ []) (omega arith) refl
