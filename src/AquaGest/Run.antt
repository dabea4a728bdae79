-- ===== src/AquaGest/Run.antt =====
-- The whole program, from its start to its end.
use gest_aqua.Prelude.{Bool, List, [], ap, arith, eq_ℤ, false, negsuc, pos, refl, some, take}
use gest_aqua.Prelude.{true, ℕ, ℤ, ◌∙◌, ◌∷◌, ◌≡◌}
use gest_aqua.AquaGest.{main}
use gest_aqua.Config.{DefPlanification, ParametreAppli}
use gest_aqua.Config.Init.{Memcmp, pst_init}
use gest_aqua.Double.{Double}
use gest_aqua.Gpio.{Gpio}
use gest_aqua.Planner.{Env, MainTask, cancel, i_init_planification, launch_later, new_main_task}
use gest_aqua.Planner.{plan_slot, plan_slots}
use gest_aqua.Planner.EachDay.{ended, first_seconds, plan_day, plan_days, seconds}
use gest_aqua.Planner.EachDay.{thread_main-plan_days}
use gest_aqua.Planner.Main.{Now, release, thread_main}
use gest_aqua.Thread.{CThread, Os, Round, create, fct_thread, leave, set_arret}

module _ (F : Double) (cmp : Memcmp F.Val) (env : Env F.Val) where
  open F use {Val}

  thread-plan_slot :
      (off : ℤ) (d : DefPlanification) (w : MainTask Val)
      → (plan_slot env off d w).thread ≡ w.thread
  unfolding plan_slot cancel launch_later
  thread-plan_slot off d w = ground arith

  thread-plan_slots :
      (off : ℤ) (ds : List DefPlanification) (w : MainTask Val)
      → (plan_slots env off ds w).thread ≡ w.thread
  unfolding plan_slots
  thread-plan_slots off [] w = refl
  thread-plan_slots off (d ∷ ds) w =
      thread-plan_slots off ds (plan_slot env off d w) ∙ thread-plan_slot off d w

  thread-plan_days :
      (days : List (ℤ × ℤ)) (w : MainTask Val) → (plan_days F cmp env days w).thread ≡ w.thread
  unfolding i_init_planification
  thread-plan_days [] w = refl
  thread-plan_days ((day, off) ∷ days) w =
      let w0 = record w { last_day = day; params = (pst_init F cmp w.params).0 } in
      thread-plan_days days (plan_day F cmp env day off w)
      ∙ thread-plan_slots off w0.params.planifs w0

  thread-release : (w : MainTask Val) → (release w).thread ≡ w.thread
  unfolding release
  thread-release w = refl

  auto_delete-set_arret : (n : ℕ) (t : CThread) → (set_arret n t).auto_delete ≡ t.auto_delete
  unfolding set_arret
  auto_delete-set_arret n t = ground arith

  fct_thread_lem :
      (body : MainTask Val → MainTask Val) (a last : MainTask Val) (t : CThread)
      → body (record a { thread = set_arret 0 a.thread }) ≡ last
      → last.thread ≡ t
      → t.auto_delete ≡ false
      → fct_thread (λ w. w.thread) (λ t w. record w { thread = t }) body a
        ≡ some (record last { thread = set_arret 2 t })
  unfolding fct_thread
  fct_thread_lem body a last t e same kept = rw (e, same, auto_delete-set_arret 2 t, kept) refl

  -- The main task as its thread finds it.
  abbrev pub started : CThread → ParametreAppli Val → ℕ → ℕ → MainTask Val
  started thread params r w = record (new_main_task thread params) {
    thread = record thread { pipe_r = pos r; pipe_w = pos w; octets = 0; arret = 0 };
  }

  -- A program that gets a pipe and a thread, and whose main task is neither detached nor to free
  -- itself, waits for the main task. When the rounds come to the end of the task's loop, the thread
  -- is over, and the task has made the plans at the first second that it saw with a day and at the
  -- first of each other day after, at no other second; then it has let go of its timers, and its
  -- flag is 2.
  pub main_lem :
      (mmap_ok : Bool) (thread : CThread) (params : ParametreAppli Val) (rounds : List Round)
      (nows : List Now) (g : Gpio) (r w : ℕ)
      → thread.auto_delete ≡ false
      → thread.detache ≡ false
      → ended rounds ≡ leave
      → let os : Os = record { pipe = some (pos r, pos w); create_ok = true } in
        let prog = main F cmp env os mmap_ok thread params rounds nows g in
        let start = started thread params r w in
        let seen = first_seconds (negsuc 0) (take (seconds rounds) nows) in
        let last = release (plan_days F cmp env seen start) in
        (prog.waited ≡ true)
        × (prog.still ≡ leave)
        × (prog.task ≡ some (record last { thread = set_arret 2 start.thread }))
  unfolding main create new_main_task set_arret
  main_lem mmap_ok thread params rounds nows g r w kept joined over =
      let start = started thread params r w in
      let seen = first_seconds (negsuc 0) (take (seconds rounds) nows) in
      let open_pipe : eq_ℤ (pos r) (negsuc 0) ≡ false = ground arith in
      let loop = thread_main-plan_days F cmp env rounds nows start open_pipe in
      let ran = rw over at loop in
      let planned = plan_days F cmp env seen start in
      let made = record start { thread = record start.thread { arret = thread.arret } } in
      let body = λ (w : MainTask Val). (thread_main F cmp env rounds nows w).0 in
      (
        rw (kept, joined) refl,
        ap (λ x. x.1) ran,
        fct_thread_lem body made (release planned) start.thread (ap (λ x. x.0) ran)
            (thread-release planned ∙ thread-plan_days seen start) kept,
      )
