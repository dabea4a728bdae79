-- ===== src/Tests/Lives.antt =====
-- The theorems on profiles that run, on a main task with one plan that waits.
use gest_aqua.Prelude.{[], arith, false, find, get_elem?, inl, length, none, pos, refl, some}
use gest_aqua.Prelude.{true, ℕ, ◌*ℤ◌, ◌+ℤ◌, ◌+◌, ◌-ℤ◌, ◌<◌, ◌∷◌, ◌≡◌}
use gest_aqua.Double.Exact.{Ratio, exact}
use gest_aqua.Planner.{Callback, MainTask, armed_timer, call_back, launch, plan_slot}
use gest_aqua.Planner.{remaining_usec, start_profil, stop_profil}
use gest_aqua.Planner.Days.{AreServed, day_tick-days}
use gest_aqua.Planner.Ending.{release-Told}
use gest_aqua.Planner.Life.{Life, Life-call_back, born, launched}
use gest_aqua.Planner.Main.{Now, release}
use gest_aqua.Planner.Morning.{DayTimes}
use gest_aqua.Planner.Replanned.{plan_slot-again}
use gest_aqua.Planner.Running.{call_back-launch, launch-twice}
use gest_aqua.Planner.Timers.{armed_timer_lem}
use gest_aqua.Planner.Told.{Told}
use gest_aqua.Planner.Watched.{IsLaunch}
use gest_aqua.Profil.{Profil}
use gest_aqua.Tests.{compare_two, env, main_task, params}
use gest_aqua.Tests.Launches.{plan}
use gest_aqua.Timer.{CTimer}

abbrev waiting_task : MainTask Ratio
waiting_task = record main_task {
  timers = armed_timer (env.timer 0) (start_profil 1) false 100 ∷ [];
  lanceur = (1, 0) ∷ [];
  params = record params { planifs = plan ∷ [] };
}

abbrev launched_task : MainTask Ratio
launched_task = launch env 64 (pos 36000) plan (record waiting_task { lanceur = [] })

time_left : 0 < remaining_usec 64 (pos 36000) plan.planif
unfolding remaining_usec ◌-ℤ◌ ◌+ℤ◌ ◌*ℤ◌
time_left = omega arith

launched-Life : Life exact compare_two env launched_task ((1, 0) ∷ [])
launched-Life =
    let is_launch : IsLaunch waiting_task.timers (1, 0) =
      let m = env.timer 0 in
      (
        armed_timer m (start_profil 1) false 100,
        1,
        refl,
        armed_timer_lem m (start_profil 1) false 100,
      ) in
    launched 64 (pos 36000) 1 0 plan (born waiting_task refl (is_launch, tt)) refl refl refl refl
      refl time_left (call_back-launch env 64 (pos 36000) 1 0 plan waiting_task refl refl refl)

Life-call_back_example :
    (w' : MainTask Ratio) × (p : Profil Ratio) × (call_back env 64
        (pos 72000)
        (stop_profil 1 0)
        launched_task
      ≡ some w')
    × (find 1 w'.stops ≡ none)
    × (get_elem? w'.profils 0 ≡ some p)
    × (p.thread.arret ≡ 1)
    × (p.thread.auto_delete ≡ true)
Life-call_back_example =
    Life-call_back exact compare_two env 64 (pos 72000) 1 0 launched_task ((1, 0) ∷ [])
      launched-Life refl

release-Told_example :
    Told (release launched_task).profils 0
    × ((release launched_task).lanceur ≡ [])
    × ((release launched_task).stops ≡ [])
release-Told_example =
    release-Told exact compare_two env 1 0 launched_task ((1, 0) ∷ []) launched-Life refl

launch-twice_example :
    let w2 = launch env 64 (pos 39600) plan launched_task in
    (w3 : MainTask Ratio) × (p : Profil Ratio) × (call_back env 64 (pos 72000) (stop_profil 1 0) w2
      ≡ some w3)
    × (get_elem? w3.profils 0 ≡ some p)
    × (p.thread.arret ≡ 1)
    × (p.thread.auto_delete ≡ true)
    × (find 1 w3.stops ≡ none)
    × (call_back env 64 (pos 72000) (stop_profil 1 1) w3 ≡ none)
launch-twice_example =
    launch-twice env 64 (pos 36000) (pos 39600) (pos 72000) (pos 72000) 0 1 plan plan
      (record waiting_task { lanceur = [] }) refl refl (inl refl)

-- The thread of the timer that waits has not begun.
plan_slot-again_example :
    let w' = plan_slot env (pos 25200) plan waiting_task in
    let t = armed_timer (env.timer 0) (start_profil 1) false 100 in
    (t' : CTimer Callback) × (w'' : MainTask Ratio) × (q : Profil Ratio) × (get_elem? w'.timers 0
      ≡ some t')
    × (t'.callback ≡ some (start_profil 1))
    × (t' ≡ t)
    × (call_back env 64 (pos 28800) (start_profil 1) w' ≡ some w'')
    × (length w''.profils ≡ 1)
    × (get_elem? w''.profils 0 ≡ some q)
    × (q.numero ≡ 1)
    × (q.debut ≡ pos 28800)
    × (find 1 w''.stops ≡ some (length w'.timers))
    × (call_back env 64 (pos 28801) (start_profil 1) w'' ≡ none)
unfolding armed_timer
plan_slot-again_example =
    plan_slot-again env 64 (pos 25200) (pos 28800) (pos 28801) plan 0
      (armed_timer (env.timer 0) (start_profil 1) false 100) waiting_task refl refl refl refl refl

-- The main task after the first second of a day, at midnight.
abbrev midnight : Now
midnight = record { yday = some (pos 41); offset = pos 0 }

abbrev first_day : DayTimes
first_day = record {
  now = midnight;
  yday = pos 41;
  off = 0;
  first = true;
  night_end = pos 0;
  t = 28801;
  left = 43199;
  later = pos 72001;
  t' = 72002;
  left' = 43198;
}

-- The profile of the night before is stopped a second after the launch of 8 h.
abbrev second_day : DayTimes
second_day = record {
  now = record { yday = some (pos 42); offset = pos 3 };
  yday = pos 42;
  off = 3;
  first = false;
  night_end = pos 28801;
  t = 28800;
  left = 43200;
  later = pos 72000;
  t' = 72000;
  left' = 43200;
}

day_tick-days_example :
    (w' : MainTask Ratio) × AreServed exact compare_two env none
      (first_day ∷ second_day ∷ [])
      main_task
      w'
    × (length w'.profils ≡ 4)
    × ((pid : ℕ) → pid + 1 < length w'.profils → Told w'.profils pid)
    × ((id : ℕ) × (find 2 w'.stops ≡ some id))
day_tick-days_example =
    day_tick-days exact compare_two env first_day (second_day ∷ []) main_task
      (
        (
          refl,
          refl,
          refl,
          omega arith,
          (omega arith, omega arith),
          (omega arith, omega arith, omega arith),
        ),
        (
          (
            refl,
            refl,
            refl,
            omega arith,
            (omega arith, omega arith),
            (omega arith, omega arith, omega arith),
          ),
          tt,
        ),
      )
      refl tt refl
