-- ===== src/Daylight.antt =====
-- The light of a day, from the plans of the main task (MainTache.cpp) to the output of the lamp
-- (Profil.cpp, Soleil.cpp, PwmGpio.cpp).
use gest_aqua.Prelude.{List, ap, arith, eq_ℤ, false, get_elem?, get_elem?-length, length, negsuc}
use gest_aqua.Prelude.{none, pos, refl, some, true, ℕ, ℤ, ◌+◌, ◌<◌, ◌==◌, ◌∙◌, ◌∷◌, ◌≡◌}
use gest_aqua.Config.{ParamProfil, max_planif_profil, max_profil}
use gest_aqua.Config.Change.{pst_init_lem}
use gest_aqua.Config.Init.{Memcmp, init_profils, pst_init, soleil_profil}
use gest_aqua.Double.{Double}
use gest_aqua.Double.Exact.{Ratio, exact}
use gest_aqua.Gpio.{Gpio}
use gest_aqua.Planner.{Env, MainTask, i_init_planification, launch}
use gest_aqua.Planner.Daily.{day_tick-new}
use gest_aqua.Planner.Day.{params-plan_slots}
use gest_aqua.Planner.Life.{kept-day_tick}
use gest_aqua.Planner.Main.{Now, day_tick}
use gest_aqua.Planner.Morning.{DayTimes, day_tick-Planned, launch_morning}
use gest_aqua.Planner.Plan.{InRange, planned}
use gest_aqua.Planner.Served.{Launches, after_launch}
use gest_aqua.Profil.{Parts, Profil, copy_param, init_profil, new_profil, set_debut}
use gest_aqua.Profil.{set_duree_profil, start_thread, thread_profil}
use gest_aqua.Profil.Lamps.{thread_profil_lem}
use gest_aqua.Soleil.{Soleil, thread_soleil}
use gest_aqua.Soleil.Followed.{duty_at, haut_of, thread_soleil-duty_at}
use gest_aqua.Soleil.Rounds.{OnTime, expiries, last_of, offsets}
use gest_aqua.Thread.{CThread, Os, Round, again, create, new_thread}
use gest_aqua.Thread.Laws.{left_by}

module _ (F : Double) (cmp : Memcmp F.Val) (env : Env F.Val) where
  -- The first of the built-in profiles has the number 1, the other has not.
  copy_param-first :
      (p : ParamProfil F.Val)
      → (copy_param 1 (init_profils F max_profil 0) p).param_soleil ≡ soleil_profil F
  unfolding copy_param init_profils
  copy_param-first p = refl

  profils-day_tick :
      (now : Now) (day : ℤ) (w : MainTask F.Val)
      → now.yday ≡ some day
      → eq_ℤ day w.last_day ≡ false
      → length w.params.planifs ≡ max_planif_profil
      → (day_tick F cmp env now w).params.profils ≡ init_profils F max_profil 0
  unfolding i_init_planification
  profils-day_tick now day w new ne n =
      let w0 = record w { last_day = day; params = (pst_init F cmp w.params).0 } in
      let built = pst_init_lem F cmp w.params n in
      let kept = ap (λ p. p.profils) (params-plan_slots env now.offset w0.params.planifs w0) in
      rw (day_tick-new F cmp env now day w new ne) (kept ∙ ap (λ p. p.0.profils) built.1 ∙ built.2)

  -- A profile that a plan launches: on the curve that is built in, with no lamp, and with the pipe
  -- that the system gives.
  record IsLaunched (r : ℤ) (p : Profil F.Val) : Type 0 where
    dark : p.lampe ≡ none
    curve : p.param.param_soleil ≡ soleil_profil F
    piped : p.thread.pipe_r ≡ r

  after_launch-IsLaunched :
      (hour t : ℕ) (r wr : ℤ) (w : MainTask F.Val)
      → w.params.profils ≡ init_profils F max_profil 0
      → (env.profil (length w.profils)).os.pipe ≡ some (r, wr)
      → (p : Profil F.Val) × (get_elem?
            (after_launch F cmp env 1 hour t w).profils
            (length w.profils)
          ≡ some p)
        × IsLaunched r p
  unfolding launch new_profil init_profil start_thread create new_thread set_debut set_duree_profil
  after_launch-IsLaunched hour t r wr w table pipe = (
    _,
    get_elem?-length w.profils _,
    record { dark = refl; curve = rw table (copy_param-first _); piped = rw pipe refl },
  )

pipe_r-create :
    (os : Os) (t : CThread) (r wr : ℤ) → os.pipe ≡ some (r, wr) → (create os false t).0.pipe_r ≡ r
unfolding create
pipe_r-create os t r wr e = rw e refl

-- The registers once the lamp has made its pin an output and cleared it.
abbrev pub lit_pin : Gpio → Gpio
lit_pin g = record g { stores = (322, 65536) ∷ (449, 65536) ∷ g.stores }

-- A day that the main task sees before 8 h, with a `time_t` of 64 bits and exact arithmetic. When the
-- launch at number 1 calls back, a profile is launched; the thread of this profile makes a lamp and
-- keeps it as long as the profile is not stopped; and after each round of this lamp's thread, the duty
-- of its output is that of the built-in curve at the moment, but 50 at 14 h, where the curve reaches
-- 100, which the output refuses; and its timer waits for that share of 1000 microseconds at each level
-- of the pin. The rounds come from 8 h on and before 20 h, each at the
-- latest when the interval of the segment at the round before is over. The pipes of the profile and of
-- the lamp open, the registers are mapped, the lamp does not free itself, the launch comes before 20 h,
-- the table of plans has its size, and the launches that wait are those of timers that exist.
pub day_tick-duty_at :
    (cmp : Memcmp Ratio) (env : Env Ratio) (now : Now) (day : ℤ) (off t left : ℕ)
    (w : MainTask Ratio) (os os' : Os) (parts : Parts exact) (rounds : List Round) (g : Gpio)
    (r wr r' wr' : ℤ) (n : ℕ) (ns : List ℕ)
    → now.yday ≡ some day
    → eq_ℤ day w.last_day ≡ false
    → now.offset ≡ pos off
    → off < 28800
    → length w.params.planifs ≡ max_planif_profil
    → InRange w
    → (0 < left) × (t + left ≡ 72000)
    → (env.profil (length w.profils)).os.pipe ≡ some (r, wr)
    → eq_ℤ r (negsuc 0) ≡ false
    → os.pipe ≡ some (r', wr')
    → eq_ℤ r' (negsuc 0) ≡ false
    → parts.thread.auto_delete ≡ false
    → g.mapped ≡ true
    → left_by rounds ≡ again
    → OnTime n ns
    → let w0 = day_tick exact cmp env now w in
      (w1 : MainTask Ratio) × (p : Profil Ratio) × (s : Soleil Ratio) × (u : Soleil Ratio)
      × Launches exact cmp env 1 t left (length w0.profils) w0 w1
      × (get_elem? w1.profils (length w0.profils) ≡ some p)
      × (thread_profil exact os parts rounds p g
          ≡ some (record p { lampe = some s }, lit_pin g, again))
      × (thread_soleil exact os' (expiries (n ∷ ns)) (offsets (n ∷ ns)) s ≡ (some u, again))
      × (u.pwm.rapport ≡ duty_at (last_of n ns))
      × (u.pwm.timer.tps_usec ≡ haut_of 1000 (duty_at (last_of n ns)))
day_tick-duty_at cmp env now day off t left w os os' parts rounds g r wr r' wr' n ns new ne o early
      sized h time pipe opened pipe' opened' stays mapped runs on_time =
    let w0 = day_tick exact cmp env now w in
    let d : DayTimes = record {
      now = now;
      yday = day;
      off = off;
      first = true;
      night_end = pos 0;
      t = t;
      left = left;
      later = pos 0;
      t' = 0;
      left' = 115200;
    } in
    let w1 = after_launch exact cmp env 1 8 t w0 in
    let same : length w0.profils ≡ length w.profils =
      ap (λ v. length v.1) (kept-day_tick exact cmp env now w) in
    let (planned, _, _) =
      day_tick-Planned exact cmp env d w
        (new, ne, o, early, time, (omega arith, omega arith, omega arith)) sized h in
    let starts = launch_morning exact cmp env d w0 time planned in
    let (p, has, fresh) =
      after_launch-IsLaunched exact cmp env 8 t r wr w0
        (profils-day_tick exact cmp env now day w new ne sized)
        (ap (λ i. (env.profil i).os.pipe) same ∙ pipe) in
    let valid : (p.param.param_soleil.valide == 0) ≡ false =
      rw (fresh.curve) (unfold soleil_profil in refl) in
    let (s, lit, on_curve, waits, thread, period) =
      thread_profil_lem exact os parts rounds p g (rw (fresh.piped) opened) valid fresh.dark stays
        mapped in
    let s_piped : s.thread.pipe_r ≡ r' =
      ap (λ c. c.pipe_r) thread ∙ pipe_r-create os parts.thread r' wr' pipe' in
    let (u, run, duty, wait, _) =
      thread_soleil-duty_at os' n ns s (rw s_piped opened') (on_curve ∙ fresh.curve) waits
        on_time in
    (
      w1,
      p,
      s,
      u,
      starts,
      has,
      lit ∙ rw runs refl,
      run,
      duty,
      wait ∙ ap (λ q. haut_of q (duty_at (last_of n ns))) period,
    )
