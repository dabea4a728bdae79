-- ===== src/Planner/EachDay.antt =====
-- The life of the main task: at which of the seconds that it sees it makes the plans.
use gest_aqua.Prelude.{Bool, Bool-cases, List, Option-cases, [], ap, arith, eq_ℤ, false}
use gest_aqua.Prelude.{if◌then◌else◌, inl, inr, negsuc, none, not, refl, some, suc, take, true}
use gest_aqua.Prelude.{zero, ℕ, ℤ, ◌==◌, ◌||◌, ◌∙◌, ◌∷◌, ◌≡◌}
use gest_aqua.Config.Init.{Memcmp, pst_init}
use gest_aqua.Double.{Double}
use gest_aqua.Planner.{Env, MainTask, i_init_planification}
use gest_aqua.Planner.Daily.{day_tick-new}
use gest_aqua.Planner.Day.{last_day-plan_slots}
use gest_aqua.Planner.Main.{Now, day_tick, main_tick, release, thread_main}
use gest_aqua.Thread.{Next, Round, again, failed, leave, ready, round, select_loop, timeout}
use gest_aqua.Thread.Laws.{fires}

-- A round after which the loop of `CMainTask::Thread` is left: any readiness of the pipe is one.
abbrev pub ends : Round → Bool
ends r =
    not (r.arret == 0)
    || elim (r.select) [ ready is_set ↦ true | timeout ↦ false | failed eintr ↦ not eintr ]

-- How often a second is up before that, and whether it comes.
abbrev pub seconds : List Round → ℕ
seconds [] = 0
seconds (r ∷ rs) = let rest = seconds rs in if ends r then 0 else if fires r then suc rest else rest

abbrev pub ended : List Round → Next
ended [] = again
ended (r ∷ rs) = let rest = ended rs in if ends r then leave else rest

abbrev pub times : {S : Type 0} → ℕ → (S → S) → S → S
times zero f s = s
times (suc n) f s = times n f (f s)

module _ {S : Type 0} (step : S → S × Next) where
  select_loop-times :
      (rounds : List Round) (s : S)
      → ((s : S) → (step s).1 ≡ again)
      → select_loop true step rounds s ≡ (times (seconds rounds) (λ x. (step x).0) s, ended rounds)
  unfolding select_loop round
  select_loop-times [] s go = refl
  select_loop-times (r ∷ rs) s go =
      ground (arith, go s, select_loop-times rs s go, select_loop-times rs (step s).0 go)

-- The seconds, of those seen, that are the first of a day other than the last one planned: the day
-- of the year and the seconds since midnight of each.
abbrev pub first_seconds : ℤ → List Now → List (ℤ × ℤ)
first_seconds last [] = []
first_seconds last (now ∷ nows) = elim (now.yday) [
  | none ↦ first_seconds last nows
  | some day ↦
      if eq_ℤ day last then first_seconds last nows else (day, now.offset) ∷ first_seconds day nows
]

module _ (F : Double) (cmp : Memcmp F.Val) (env : Env F.Val) where
  -- The plans of a day made so many seconds after midnight, and those of several days.
  abbrev pub plan_day : ℤ → ℤ → MainTask F.Val → MainTask F.Val
  plan_day day off w =
      (i_init_planification env off true
        (record w { last_day = day; params = (pst_init F cmp w.params).0 })).0

  abbrev pub plan_days : List (ℤ × ℤ) → MainTask F.Val → MainTask F.Val
  plan_days [] w = w
  plan_days ((day, off) ∷ days) w = plan_days days (plan_day day off w)

  last_day-plan_day : (day off : ℤ) (w : MainTask F.Val) → (plan_day day off w).last_day ≡ day
  unfolding i_init_planification
  last_day-plan_day day off w =
      let w0 = record w { last_day = day; params = (pst_init F cmp w.params).0 } in
      last_day-plan_slots env off w0.params.planifs w0

  day_tick-same : (now : Now) (w : MainTask F.Val) → now.yday ≡ none → day_tick F cmp env now w ≡ w
  unfolding day_tick
  day_tick-same now w e = rw e refl

  day_tick-old :
      (now : Now) (day : ℤ) (w : MainTask F.Val)
      → now.yday ≡ some day
      → eq_ℤ day w.last_day ≡ true
      → day_tick F cmp env now w ≡ w
  unfolding day_tick
  day_tick-old now day w e h = rw (e, h) refl

  -- The plans of the seconds to come are those of the first, and then those of the others.
  plan_days-day_tick :
      (now : Now) (nows : List Now) (w : MainTask F.Val)
      → let w' = day_tick F cmp env now w in
        plan_days (first_seconds w'.last_day nows) w'
        ≡ plan_days (first_seconds w.last_day (now ∷ nows)) w
  plan_days-day_tick now nows w = elim (Option-cases now.yday) [
    | inl e ↦ rw (day_tick-same now w e, e) refl
    | inr (day, e) ↦ elim (Bool-cases (eq_ℤ day w.last_day)) [
      | inl h ↦ rw (day_tick-old now day w e h, e, h) refl
      | inr h ↦
          rw (day_tick-new F cmp env now day w e h, last_day-plan_day day now.offset w, e, h) refl
    ]
  ]

  -- So many seconds of the loop.
  main_ticks :
      (n : ℕ) (nows : List Now) (w : MainTask F.Val)
      → (times n (λ s. (main_tick F cmp env s).0) (w, nows)).0
        ≡ plan_days (first_seconds w.last_day (take n nows)) w
  unfolding main_tick
  main_ticks zero nows w = refl
  main_ticks (suc zero) [] w = refl
  main_ticks (suc (suc n)) [] w = main_ticks (suc n) [] w
  main_ticks (suc n) (now ∷ nows) w =
      main_ticks n nows (day_tick F cmp env now w) ∙ plan_days-day_tick now (take n nows) w

  main_tick_again : (s : MainTask F.Val × List Now) → (main_tick F cmp env s).1 ≡ again
  unfolding main_tick
  main_tick_again (w, []) = refl
  main_tick_again (w, now ∷ nows) = refl

  -- The loop of a main task whose pipe is open makes the plans at the first second of each day that
  -- it sees, with the offset of that second, and at no other; `nows` is what the clock gives at each
  -- second, and a second when it gives no day is passed over. When the loop is left, and only then,
  -- the task ends: it has let go of its timers.
  pub thread_main-plan_days :
      (rounds : List Round) (nows : List Now) (w : MainTask F.Val)
      → eq_ℤ w.thread.pipe_r (negsuc 0) ≡ false
      → let planned = plan_days (first_seconds w.last_day (take (seconds rounds) nows)) w in
        thread_main F cmp env rounds nows w
        ≡ elim (ended rounds) [ again ↦ (planned, again) | leave ↦ (release planned, leave) ]
  unfolding thread_main
  thread_main-plan_days rounds nows w open_pipe =
      let loop = select_loop-times (main_tick F cmp env) rounds (w, nows) main_tick_again in
      let task = ap (λ x. x.0.0) loop ∙ main_ticks (seconds rounds) nows w in
      rw (open_pipe, ap (λ x. x.1) loop)
        (ap (λ u. elim (ended rounds) [ again ↦ (u, again) | leave ↦ (release u, leave) ]) task)
