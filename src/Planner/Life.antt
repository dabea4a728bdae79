-- ===== src/Planner/Life.antt =====
-- The main task as the steps of its seconds and of its timers, in any order: each profile that runs
-- can be stopped.
use gest_aqua.Prelude.{Bool-cases, List, Option-cases, [], ap, arith, eq_ℤ, erase, false, find}
use gest_aqua.Prelude.{find-erase, get_elem?, inl, inr, length, none, refl, some, some-injective}
use gest_aqua.Prelude.{subst, sym, true, ℕ, ℤ, ◌<◌, ◌==◌, ◌∙◌, ◌∷◌, ◌≡◌}
use gest_aqua.Config.{DefPlanification}
use gest_aqua.Config.Init.{Memcmp, pst_init}
use gest_aqua.Double.{Double}
use gest_aqua.Planner.{Env, MainTask, call_back, end_profil, remaining_usec, start_profil}
use gest_aqua.Planner.{stop_profil}
use gest_aqua.Planner.Launch.{finished, finished_lem}
use gest_aqua.Planner.Main.{Now, day_tick}
use gest_aqua.Planner.Running.{AllStoppable, call_back-launch, call_back-stop}
use gest_aqua.Planner.Running.{get_elem?-end_profil_self, get_elem?_found, kept}
use gest_aqua.Planner.Running.{kept-i_init_planification, launch-AllStoppable, slots_of}
use gest_aqua.Planner.Running.{stop-AllStoppable}
use gest_aqua.Planner.Watched.{AllLaunches, begin_timer}
use gest_aqua.Profil.{Profil}

module _ (F : Double) (cmp : Memcmp F.Val) (env : Env F.Val) where
  -- The life of a main task, with the profiles that run and are not told to stop. It is born with no
  -- number to stop, and each number that waits has a timer that launches. Then the thread of a timer
  -- begins, a second passes, a timer launches the one plan that has its number, whose profile does not
  -- run and which has time left, or the timer of a profile that runs tells it to stop.
  pub data Life : MainTask F.Val → List (ℕ × ℕ) → Type 0 where
    born : (w : MainTask F.Val) → w.stops ≡ [] → AllLaunches w → Life w []
    began :
        (id : ℕ) {w : MainTask F.Val} {run : List (ℕ × ℕ)}
        → Life w run
        → Life (record w { timers = begin_timer id w.timers }) run
    ticked :
        (now : Now) {w : MainTask F.Val} {run : List (ℕ × ℕ)}
        → Life w run
        → Life (day_tick F cmp env now w) run
    launched :
        (tw : ℕ) (off : ℤ) (num id : ℕ) (d : DefPlanification) {w w' : MainTask F.Val}
        {run : List (ℕ × ℕ)}
        → Life w run
        → (num == 0) ≡ false
        → find num w.lanceur ≡ some id
        → slots_of num w.params.planifs ≡ d ∷ []
        → (d.numero_profil == 0) ≡ false
        → find d.numero_profil run ≡ none
        → 0 < remaining_usec tw off d.planif
        → call_back env tw off (start_profil num) w ≡ some w'
        → Life w' ((d.numero_profil, length w.profils) ∷ run)
    stopped :
        (tw : ℕ) (off : ℤ) (num pid : ℕ) {w w' : MainTask F.Val} {run : List (ℕ × ℕ)}
        → Life w run
        → find num run ≡ some pid
        → call_back env tw off (stop_profil num pid) w ≡ some w'
        → Life w' (erase num run)

  pub kept-day_tick :
      (now : Now) (w : MainTask F.Val) → kept env (day_tick F cmp env now w) ≡ kept env w
  unfolding day_tick pst_init
  kept-day_tick now w = elim (Option-cases now.yday) [
    | inl e ↦ rw e refl
    | inr (day, e) ↦ elim (Bool-cases (eq_ℤ day w.last_day)) [
      | inl same ↦ rw (e, same) refl
      | inr new ↦
          let params = (pst_init F cmp w.params).0 in
          rw (e, new)
            (kept-i_init_planification env now.offset
              (record w { last_day = day; params = params }))
    ]
  ]

  pub Life-AllStoppable :
      {w : MainTask F.Val} {run : List (ℕ × ℕ)} → Life w run → AllStoppable w run
  Life-AllStoppable (born w e waits) num pid f = cc
  Life-AllStoppable (began id l) num pid f = Life-AllStoppable l num pid f
  Life-AllStoppable (ticked now {w = w} l) num pid f =
      let (nz, low, id, has) = Life-AllStoppable l num pid f in
      let same = kept-day_tick now w in
      (nz, rw (ap (λ k. k.1) same) low, id, rw (ap (λ k. k.0) same) has)
  Life-AllStoppable (launched tw off n id d {w = w} {run = run} l nz waits one nz' idle left e) num
        pid f =
      let w0 = record w { lanceur = erase n w.lanceur } in
      let made = sym (call_back-launch env tw off n id d w nz waits one) ∙ e in
      let h = launch-AllStoppable env tw off d w0 run nz' (Life-AllStoppable l) in
      subst (λ v. AllStoppable v ((d.numero_profil, length w.profils) ∷ run))
        (some-injective _ _ made) h num pid f
  Life-AllStoppable (stopped tw off n p {w = w} {run = run} l g e) num pid f =
      let (nz, low, id, has) = Life-AllStoppable l n p g in
      let made = sym (call_back-stop env tw off n p id w nz has) ∙ e in
      let h = stop-AllStoppable env n p id w run has (Life-AllStoppable l) in
      subst (λ v. AllStoppable v (erase n run)) (some-injective _ _ made) h num pid f

  -- In every state that the seconds, the timers that begin, the launches and the stops make, in any
  -- order, of a main task born with nothing to stop and only launches that wait, the timer of a profile that runs can call back: the number is then taken off
  -- the map, and this profile is told to stop and to free itself. A plan is launched only when it has
  -- time left, is the one of its number, and no profile with the number of its profile runs.
  pub Life-call_back :
      (tw : ℕ) (off : ℤ) (num pid : ℕ) (w : MainTask F.Val) (run : List (ℕ × ℕ))
      → Life w run
      → find num run ≡ some pid
      → (w' : MainTask F.Val) × (p : Profil F.Val) × (call_back env tw off (stop_profil num pid) w
          ≡ some w')
        × (find num w'.stops ≡ none)
        × (get_elem? w'.profils pid ≡ some p)
        × (p.thread.arret ≡ 1)
        × (p.thread.auto_delete ≡ true)
  Life-call_back tw off num pid w run l f =
      let (nz, low, id, has) = Life-AllStoppable l num pid f in
      let (q, is_q) = get_elem?_found w.profils pid low in
      let gone : find num (erase num w.stops) ≡ none = ground (arith, find-erase num num w.stops) in
      (
        record w { stops = erase num w.stops; profils = end_profil pid w.profils },
        finished q,
        call_back-stop env tw off num pid id w nz has,
        gone,
        get_elem?-end_profil_self pid w.profils q is_q,
        (finished_lem q).0,
        (finished_lem q).1,
      )
