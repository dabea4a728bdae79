-- ===== src/Planner/Served.antt =====
-- A day of the main task: its plans are launched at their times and stopped at the ends of their
-- times.
-- A plan of twelve hours that begins at an hour, with its number.
use gest_aqua.Prelude.{All, Option, Option-cases, [], ap, arith, eq_ℤ, erase, false, find}
use gest_aqua.Prelude.{find-erase, get_elem?, inl, inr, length, ltb, none, pos, refl, some}
use gest_aqua.Prelude.{subst, sym, true, ℕ, ℤ, ◌*◌, ◌+◌, ◌<◌, ◌==◌, ◌∙◌, ◌∷◌, ◌≡◌}
use gest_aqua.Config.{DefPlanification, max_planif_profil, profil}
use gest_aqua.Config.Change.{default_planifs, pst_init_lem}
use gest_aqua.Config.Init.{Memcmp, pst_init}
use gest_aqua.Double.{Double}
use gest_aqua.Planner.{Callback, Env, MainTask, call_back, end_profil, launch, start_profil}
use gest_aqua.Planner.{stop_profil}
use gest_aqua.Planner.Daily.{AllApart-default, Near-default, day_tick-new, day_tick_lem}
use gest_aqua.Planner.Day.{AllApart, i_init_planification_lem}
use gest_aqua.Planner.Launch.{launch-call_back}
use gest_aqua.Planner.Main.{Now, day_tick}
use gest_aqua.Planner.Plan.{InRange, Near, armed}
use gest_aqua.Planner.Running.{call_back-launch, call_back-stop, length-launch, slots_of}
use gest_aqua.Planner.Stop.{remaining_usec_lem}
use gest_aqua.Planner.Timers.{view}
use gest_aqua.Planner.Told.{end_profil-Told}
use gest_aqua.Profil.{Profil}

abbrev plan_from : ℕ → ℕ → DefPlanification
plan_from num hour = record {
  numero_planif = num;
  numero_profil = num;
  planif = record {
    etype = profil;
    debut = pos (hour * 3600);
    period = pos 43200;
    relance = pos 0;
  };
}

module _ (F : Double) (cmp : Memcmp F.Val) (env : Env F.Val) where
  pub planifs-day_tick :
      (now : Now) (day : ℤ) (off : ℕ) (w : MainTask F.Val)
      → now.yday ≡ some day
      → eq_ℤ day w.last_day ≡ false
      → now.offset ≡ pos off
      → length w.params.planifs ≡ max_planif_profil
      → InRange w
      → let w' = day_tick F cmp env now w in (w'.params.planifs ≡ default_planifs F) × InRange w'
  planifs-day_tick now day off w new ne o n h =
      let w0 = record w { last_day = day; params = (pst_init F cmp w.params).0 } in
      let built = pst_init_lem F cmp w.params n in
      let is_default : w0.params.planifs ≡ default_planifs F =
        ap (λ p. p.0.planifs) built.1 ∙ built.3 in
      let planned =
        i_init_planification_lem env (pos off) w0
          (subst (AllApart env) (sym is_default) (AllApart-default F cmp env))
          (subst (All (Near (pos off))) (sym is_default) (Near-default F cmp env off)) h in
      rw (day_tick-new F cmp env now day w new ne, o) (planned.3 ∙ is_default, planned.4)

  -- A launch that waits under a number stands in the map.
  pub armed-find :
      (num usec : ℕ) (w : MainTask F.Val) (c : Option Callback)
      → armed w num ≡ some (usec, c)
      → (id : ℕ) × (find num w.lanceur ≡ some id)
  armed-find num usec w c e = elim (Option-cases (find num w.lanceur)) [
    | inl none_there ↦ let bad = rw (none_there, armed) at e in cc
    | inr (id, found) ↦ (id, found)
  ]

  -- A launch at a moment, with a `time_t` of 64 bits: a profile is launched, and the timer that stops
  -- it is set for the time left.
  abbrev pub Launches : ℕ → ℕ → ℕ → ℕ → MainTask F.Val → MainTask F.Val → Type 0
  Launches num t left pid w w1 =
      (call_back env 64 (pos t) (start_profil num) w ≡ some w1)
      × (id : ℕ) × (find num w1.stops ≡ some id)
      × (view (get_elem? w1.timers id) ≡ some (left * 1000000, some (stop_profil num pid)))

  -- The end of that time: the profile is told to stop and to free itself.
  abbrev pub Ends : ℕ → ℤ → ℕ → MainTask F.Val → MainTask F.Val → Type 0
  Ends num later pid w1 w2 =
      (p : Profil F.Val) × (call_back env 64 later (stop_profil num pid) w1 ≡ some w2)
      × (find num w2.stops ≡ none)
      × (get_elem? w2.profils pid ≡ some p)
      × (p.thread.arret ≡ 1)
      × (p.thread.auto_delete ≡ true)

  -- The states after a launch and after the end of a profile.
  abbrev pub after_launch : ℕ → ℕ → ℕ → MainTask F.Val → MainTask F.Val
  after_launch num hour t w =
      launch env 64 (pos t) (plan_from num hour) (record w { lanceur = erase num w.lanceur })

  abbrev pub after_stop : ℕ → ℕ → MainTask F.Val → MainTask F.Val
  after_stop num pid w = record w { stops = erase num w.stops; profils = end_profil pid w.profils }

  pub after_launch-Launches :
      (num hour t left id : ℕ) (w : MainTask F.Val)
      → (num == 0) ≡ false
      → hour < 24
      → t < 86400
      → 0 < left
      → t + left ≡ hour * 3600 + 43200
      → find num w.lanceur ≡ some id
      → slots_of num w.params.planifs ≡ plan_from num hour ∷ []
      → Launches num t left (length w.profils) w (after_launch num hour t w)
  after_launch-Launches num hour t left id w nz early day some_left sum waits one =
      let d = plan_from num hour in
      let w0 = record w { lanceur = erase num w.lanceur } in
      let usec =
        (remaining_usec_lem t (hour * 3600) 43200 profil (pos 0) left (omega arith) (omega arith)
          (omega arith) (omega arith) sum).0 in
      let (stop_id, w2, p, found, seen, _, _, _, _, _) =
        launch-call_back env 64 (pos t) (pos t) d w0 nz (rw usec (omega arith)) in
      (call_back-launch env 64 (pos t) num id d w nz waits one, stop_id, found, seen ∙ rw usec refl)

  pub after_stop-Ends :
      (num pid id : ℕ) (later : ℤ) (w : MainTask F.Val)
      → (num == 0) ≡ false
      → find num w.stops ≡ some id
      → pid < length w.profils
      → Ends num later pid w (after_stop num pid w)
  after_stop-Ends num pid id later w nz has low =
      let gone : find num (erase num w.stops) ≡ none = ground (arith, find-erase num num w.stops) in
      let (p, kept_at, told, freed) = end_profil-Told pid w.profils low in
      (p, call_back-stop env 64 later num pid id w nz has, gone, kept_at, told, freed)

  pub length-after_launch :
      (num hour t : ℕ) (w : MainTask F.Val)
      → length (after_launch num hour t w).profils ≡ length w.profils + 1
  length-after_launch num hour t w =
      length-launch env 64 (pos t) (plan_from num hour) (record w { lanceur = erase num w.lanceur })

  -- A day of a main task that sees its first second before 8 h, with a `time_t` of 64 bits. The
  -- callback of the launch that waits under the number 1 launches a profile, and sets the timer that
  -- stops it for the time left until 20 h; when this timer calls back, the profile is told to stop.
  -- Then the callback of the launch under the number 2 launches another, with a timer for the time
  -- left until 8 h of the next day, which stops it in its turn. Each callback comes before the end of
  -- its plan. The table of plans has its size, and the launches that wait are those of timers that
  -- exist.
  pub day_tick-served :
      (now : Now) (day : ℤ) (off t left t' left' : ℕ) (later later' : ℤ) (w : MainTask F.Val)
      → now.yday ≡ some day
      → eq_ℤ day w.last_day ≡ false
      → now.offset ≡ pos off
      → off < 28800
      → length w.params.planifs ≡ max_planif_profil
      → InRange w
      → (0 < left) × (t + left ≡ 72000)
      → (t' < 86400) × (t' + left' ≡ 115200)
      → let w0 = day_tick F cmp env now w in
        (w1 : MainTask F.Val) × (w2 : MainTask F.Val) × (w3 : MainTask F.Val) × (w4 : MainTask
          F.Val)
        × Launches 1 t left (length w0.profils) w0 w1
        × Ends 1 later (length w0.profils) w1 w2
        × Launches 2 t' left' (length w2.profils) w2 w3
        × Ends 2 later' (length w2.profils) w3 w4
  day_tick-served now day off t left t' left' later later' w new ne o early n h first second =
      let w0 = day_tick F cmp env now w in
      let ticked = day_tick_lem F cmp env now day off w new ne o (omega arith) n h in
      let (table, _) = planifs-day_tick now day off w new ne o n h in
      let before : ltb off 28800 ≡ true = ground arith in
      let before' : ltb off 72000 ≡ true = ground arith in
      let (id, waits) = armed-find 1 _ w0 _ (rw before at ticked.0) in
      let (id', waits') = armed-find 2 _ w0 _ (rw before' at ticked.1) in
      let w1 = after_launch 1 8 t w0 in
      let w2 = after_stop 1 (length w0.profils) w1 in
      let w3 = after_launch 2 20 t' w2 in
      let low = length-after_launch 1 8 t w0 in
      let low' = length-after_launch 2 20 t' w2 in
      let starts =
        after_launch-Launches 1 8 t left id w0 refl (omega arith) (omega arith) first.0
          (omega arith) waits (rw table refl) in
      let still : find 2 (erase 1 w0.lanceur) ≡ some id' = rw (find-erase 1 2 w0.lanceur) waits' in
      let starts' =
        after_launch-Launches 2 20 t' left' id' w2 refl (omega arith) second.0 (omega arith)
          (omega arith) (unfold launch in still) (unfold launch in rw table refl) in
      (
        w1,
        w2,
        w3,
        after_stop 2 (length w2.profils) w3,
        starts,
        after_stop-Ends 1 (length w0.profils) starts.1 later w1 refl starts.2 (omega arith),
        starts',
        after_stop-Ends 2 (length w2.profils) starts'.1 later' w3 refl starts'.2 (omega arith),
      )
