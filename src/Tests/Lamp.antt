-- ===== src/Tests/Lamp.antt =====
-- The theorems on the lamp and its output.
use gest_aqua.Prelude.{List, [], arith, false, get_elem?, inl, length, negsuc, pos, refl, some}
use gest_aqua.Prelude.{true, ◌*ℤ◌, ◌+ℤ◌, ◌∷◌, ◌≡◌}
use gest_aqua.Config.Curve.{InBounds, seg_at, value_bounds}
use gest_aqua.Config.Init.{soleil_profil}
use gest_aqua.Daylight.{day_tick-duty_at, lit_pin}
use gest_aqua.Double.Exact.{Ratio, exact}
use gest_aqua.Planner.{MainTask}
use gest_aqua.Planner.Main.{Now, day_tick}
use gest_aqua.Planner.Served.{Launches}
use gest_aqua.Profil.{Parts, Profil, thread_profil}
use gest_aqua.Profil.Lamps.{thread_profil_lem}
use gest_aqua.Pwm.Laws.{IsShown, Trace, cycles, cycles_balanced}
use gest_aqua.Soleil.{Soleil, find_segment, thread_soleil}
use gest_aqua.Soleil.Followed.{haut_of}
use gest_aqua.Soleil.Late.{Shows, line_duty, thread_soleil-late}
use gest_aqua.Soleil.Laws.{IsValid}
use gest_aqua.Soleil.Loop.{thread_soleil-IsValid}
use gest_aqua.Soleil.Rounds.{expiries, offsets}
use gest_aqua.Soleil.Search.{Found, find_segment-Found}
use gest_aqua.Soleil.Values.{waiting}
use gest_aqua.Tests.{compare_two, env, idle, lamp, main_task, os, pwm, raw_profil, registers}
use gest_aqua.Tests.{timer, whole}
use gest_aqua.Thread.{Round, again, create, leave, ready, timeout}

find_segment-Found_example :
    Found
      (pos 36000)
      (waiting lamp).param.courbe_solaire.segments
      0
      8
      (find_segment (pos 36000) (waiting lamp).param.courbe_solaire.segments 0 8)
unfolding soleil_profil
find_segment-Found_example =
    find_segment-Found (pos 36000) (waiting lamp).param.courbe_solaire.segments 0 8 (omega arith)

-- The round at 14 h comes a second late, when the segment before 14 h is still in force.
thread_soleil-late_example :
    (t : Soleil Ratio) × (thread_soleil exact os
        (expiries (21530 ∷ 21560 ∷ 21601 ∷ []))
        (offsets (21530 ∷ 21560 ∷ 21601 ∷ []))
        (waiting lamp)
      ≡ (some t, again))
    × Shows 21560 21601 t
    × (t.pwm.timer.tps_usec ≡ haut_of 1000 t.pwm.rapport)
thread_soleil-late_example =
    thread_soleil-late os 21530 21560 (21601 ∷ []) (waiting lamp) refl refl refl
      (omega arith, omega arith, (omega arith, omega arith, omega arith))

-- This round then shows 50, since the line of the segment is above 100 there.
late_noon : line_duty 3 21601 ≡ exact.tenths (pos 500)
unfolding soleil_profil ◌*ℤ◌ ◌+ℤ◌
late_noon = refl

value_bounds_example : InBounds (seg_at 4) 21600
value_bounds_example = value_bounds 4 21600 (omega arith, omega arith)

-- A profile with a solar curve, and the parts of its lamp.
abbrev sunny : Profil Ratio
sunny = record raw_profil {
  param = record raw_profil.param {
    param_soleil = record raw_profil.param.param_soleil { valide = 1 };
  };
}

abbrev parts : Parts exact
parts = record { thread = idle; pwm = pwm (exact.of_ℤ (pos 50)); dx = exact.of_ℤ (pos 0) }

thread_profil_lem_example :
    let rounds : List Round = record { arret = 0; select = ready true; arret_after = 1 } ∷ [] in
    (s : Soleil Ratio) × (thread_profil exact os parts rounds sunny registers
      ≡ some (sunny, record registers { stores = (322, 65536) ∷ (449, 65536) ∷ [] }, leave))
    × (s.param ≡ sunny.param.param_soleil)
    × (s.index ≡ negsuc 0)
    × (s.thread ≡ (create os false idle).0)
    × (s.pwm.usec_period ≡ 1000)
thread_profil_lem_example =
    thread_profil_lem exact os parts
      (record { arret = 0; select = ready true; arret_after = 1 } ∷ []) sunny registers refl refl
      refl refl refl

abbrev trace : Trace whole
trace = record { pwm = pwm 50; gpio = registers; high = 0; low = 0 }

cycles_balanced_example :
    (u : Trace whole) × (cycles whole 3 trace ≡ some u)
    × IsShown whole u
    × (u.pwm.timer ≡ timer 1)
    × (u.high ≡ 1500)
    × (u.low ≡ 1500)
cycles_balanced_example = cycles_balanced whole 3 trace (refl, refl)

thread_soleil-IsValid_example :
    let rounds : List Round = record { arret = 0; select = timeout; arret_after = 0 } ∷ [] in
    (t : Soleil Ratio) × ((thread_soleil exact os rounds (pos 36000 ∷ []) (waiting lamp)).0
      ≡ some t)
    × IsValid t
unfolding soleil_profil
thread_soleil-IsValid_example =
    thread_soleil-IsValid exact os (record { arret = 0; select = timeout; arret_after = 0 } ∷ [])
      (pos 36000 ∷ []) (waiting lamp) (record { fits = omega arith; index_in = inl refl })

-- The main task sees a day at midnight, and launches the plan of 8 h a second late.
abbrev midnight_now : Now
midnight_now = record { yday = some (pos 41); offset = pos 0 }

day_tick-duty_at_example :
    let w0 = day_tick exact compare_two env midnight_now main_task in
    (w1 : MainTask Ratio) × (p : Profil Ratio) × (s : Soleil Ratio) × (u : Soleil Ratio) × Launches
      exact compare_two env 1 28801 43199
      (length w0.profils)
      w0
      w1
    × (get_elem? w1.profils (length w0.profils) ≡ some p)
    × (thread_profil exact os parts [] p registers
        ≡ some (record p { lampe = some s }, lit_pin registers, again))
    × (thread_soleil exact os
          (expiries (21540 ∷ 21570 ∷ 21600 ∷ []))
          (offsets (21540 ∷ 21570 ∷ 21600 ∷ []))
          s
        ≡ (some u, again))
    × (u.pwm.rapport ≡ exact.tenths (pos 500))
    × (u.pwm.timer.tps_usec ≡ haut_of 1000 (exact.tenths (pos 500)))
day_tick-duty_at_example =
    day_tick-duty_at compare_two env midnight_now (pos 41) 0 28801 43199 main_task os os parts []
      registers (pos 3) (pos 4) (pos 3) (pos 4) 21540 (21570 ∷ 21600 ∷ []) refl refl refl
      (omega arith) refl tt (omega arith, omega arith) refl refl refl refl refl refl refl
      (omega arith, omega arith, omega arith, (omega arith, omega arith, omega arith, omega arith))
