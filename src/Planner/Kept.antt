-- ===== src/Planner/Kept.antt =====
-- The timers of the main task keep their roles under the planning, the launches and the stops.
use gest_aqua.Prelude.{All-erase, All-map, Bool, Bool-cases, List, [], ap₂, arith, erase, false}
use gest_aqua.Prelude.{find, find-assign, find-erase, get_elem?-length, inl, inr, length, ltb_ℤ}
use gest_aqua.Prelude.{none, refl, some, sym, true, ℕ, ℤ, ◌++◌, ◌+ℤ◌, ◌<◌, ◌==◌, ◌∙◌, ◌∷◌, ◌≡◌}
use gest_aqua.Config.{DefPlanification}
use gest_aqua.Planner.{Callback, Env, Machine, MainTask, armed_timer, cancel, end_profil}
use gest_aqua.Planner.{i_init_planification, launch, launch_later, plan_slot, plan_slots}
use gest_aqua.Planner.{remaining_usec, start_profil, stop_profil}
use gest_aqua.Planner.Timers.{armed_timer_lem}
use gest_aqua.Planner.Watched.{IsGood, IsLaunch, IsLaunch-append, Watches-append, cancel-IsGood}

armed_timer_set :
    (m : Machine) (c : Callback) (auto : Bool) (usec : ℕ)
    → 0 < usec
    → ((armed_timer m c auto usec).callback ≡ some c) × ((armed_timer m c auto usec).attache ≡ true)
unfolding armed_timer
armed_timer_set m c auto usec h = ground arith

module _ {D : Type 0} (env : Env D) where
  launch_later-IsGood :
      (num : ℕ) (auto : Bool) (usec : ℕ) (w : MainTask D) (run : List (ℕ × ℕ))
      → IsGood w run
      → IsGood (launch_later env num auto usec w) run
  unfolding launch_later
  launch_later-IsGood num auto usec w run (launches, watched) =
      let t = armed_timer (env.timer (length w.timers)) (start_profil num) auto usec in
      let ts = w.timers ++ t ∷ [] in
      (
        (
          (
            t,
            num,
            get_elem?-length w.timers t,
            armed_timer_lem (env.timer (length w.timers)) (start_profil num) auto usec,
          ),
          All-erase (IsLaunch ts) num w.lanceur (
              All-map (IsLaunch w.timers) (IsLaunch ts) w.lanceur
                (λ e h. IsLaunch-append w.timers t e h) launches),
        ),
        λ n p e.
            let (id, has, watches) = watched n p e in
            (id, has, Watches-append w.timers t id n p watches),
      )

  plan_slot-IsGood :
      (off : ℤ) (d : DefPlanification) (w : MainTask D) (run : List (ℕ × ℕ))
      → IsGood w run
      → IsGood (plan_slot env off d w) run
  unfolding plan_slot
  plan_slot-IsGood off d w run good = elim (Bool-cases (d.numero_planif == 0)) [
    | inl e ↦ rw e good
    | inr e ↦ elim (Bool-cases (ltb_ℤ off d.planif.debut)) [
      | inl f ↦
          rw (e, f)
            (launch_later-IsGood d.numero_planif true _ (cancel d.numero_planif w) run
              (cancel-IsGood d.numero_planif w run good))
      | inr f ↦ elim (Bool-cases (ltb_ℤ off (d.planif.debut +ℤ d.planif.period))) [
        | inl g ↦ rw (e, f, g) (launch_later-IsGood d.numero_planif false 100 w run good)
        | inr g ↦ rw (e, f, g) good
      ]
    ]
  ]

  plan_slots-IsGood :
      (off : ℤ) (ds : List DefPlanification) (w : MainTask D) (run : List (ℕ × ℕ))
      → IsGood w run
      → IsGood (plan_slots env off ds w) run
  unfolding plan_slots
  plan_slots-IsGood off [] w run good = good
  plan_slots-IsGood off (d ∷ ds) w run good =
      plan_slots-IsGood off ds (plan_slot env off d w) run (plan_slot-IsGood off d w run good)

  pub i_init_planification-IsGood :
      (off : ℤ) (w : MainTask D) (run : List (ℕ × ℕ))
      → IsGood w run
      → IsGood (i_init_planification env off true w).0 run
  unfolding i_init_planification
  i_init_planification-IsGood off w run good = plan_slots-IsGood off w.params.planifs w run good

  pub launch-IsGood :
      (tw : ℕ) (off : ℤ) (d : DefPlanification) (w : MainTask D) (run : List (ℕ × ℕ))
      → 0 < remaining_usec tw off d.planif
      → IsGood w run
      → IsGood (launch env tw off d w) ((d.numero_profil, length w.profils) ∷ run)
  unfolding launch
  launch-IsGood tw off d w run left (launches, watched) =
      let tid = length w.timers in
      let num = d.numero_profil in
      let pid = length w.profils in
      let usec = remaining_usec tw off d.planif in
      let t = armed_timer (env.timer tid) (stop_profil num pid) false usec in
      let (called, on) = armed_timer_set (env.timer tid) (stop_profil num pid) false usec left in
      (
        All-map (IsLaunch w.timers) (IsLaunch (w.timers ++ t ∷ [])) w.lanceur
            (λ e h. IsLaunch-append w.timers t e h) launches,
        λ n p e. elim (Bool-cases (num == n)) [
          | inl same ↦
              let num_eq : num ≡ n = ground arith in
              let pid_eq : pid ≡ p = ground arith in
              (
                tid,
                rw (find-assign num n tid w.stops, same) refl,
                (
                  t,
                  get_elem?-length w.timers t,
                  called ∙ ap₂ (λ a b. some (stop_profil a b)) num_eq pid_eq,
                  on,
                ),
              )
          | inr ne ↦
              let (id, has, watches) = watched n p (rw ne at e) in
              (
                id,
                rw (find-assign num n tid w.stops, ne) has,
                Watches-append w.timers t id n p watches,
              )
        ],
      )

  pub stop-IsGood :
      (num pid : ℕ) (w : MainTask D) (run : List (ℕ × ℕ))
      → IsGood w run
      → IsGood
          (record w { stops = erase num w.stops; profils = end_profil pid w.profils })
          (erase num run)
  stop-IsGood num pid w run (launches, watched) = (
    launches,
    λ n p e. elim (Bool-cases (num == n)) [
      | inl same ↦
          let gone : find n (erase num run) ≡ none = rw (find-erase num n run, same) refl in cc
      | inr ne ↦
          let still : find n run ≡ some p = sym (rw (find-erase num n run, ne) refl) ∙ e in
          let (id, has, watches) = watched n p still in
          (id, rw (find-erase num n w.stops, ne) has, watches)
    ],
  )
