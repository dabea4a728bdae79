-- ===== src/Planner/Running.antt =====
-- The profiles that the main task can stop, and what the planning, the launches and the stops do to
-- them.
-- The slots of the table with a number.
use gest_aqua.Prelude.{Bool-cases, List, Option-cases, [], arith, assign, erase, false, find}
use gest_aqua.Prelude.{find-assign, find-erase, get_elem?, get_elem?-set_self, if◌then◌else◌}
use gest_aqua.Prelude.{inl, inr, length, length-append, length-set, lt-length_of_get_elem?, none}
use gest_aqua.Prelude.{refl, some, suc, sym, true, zero, ℕ, ℤ, ◌+◌, ◌<◌, ◌==◌, ◌∙◌, ◌∷◌, ◌≡◌}
use gest_aqua.Prelude.{◌⊎◌}
use gest_aqua.Config.{DefPlanification}
use gest_aqua.Planner.{Env, MainTask, call_back, cancel, end_profil, i_init_planification}
use gest_aqua.Planner.{i_start_profil, i_stop_profil, launch, launch_all, launch_later}
use gest_aqua.Planner.{plan_slot, plan_slots, start_profil, stop_profil}
use gest_aqua.Planner.Launch.{finished, finished_lem, i_stop_profil-found}
use gest_aqua.Profil.{Profil}

abbrev pub slots_of : ℕ → List DefPlanification → List DefPlanification
slots_of num [] = []
slots_of num (d ∷ ds) =
    let rest = slots_of num ds in if d.numero_planif == num then d ∷ rest else rest

module _ {D : Type 0} where
  pub get_elem?-end_profil_self :
      (pid : ℕ) (ps : List (Profil D)) (q : Profil D)
      → get_elem? ps pid ≡ some q
      → get_elem? (end_profil pid ps) pid ≡ some (finished q)
  unfolding end_profil
  get_elem?-end_profil_self pid ps q e =
      rw (end_profil, e) (get_elem?-set_self ps pid (finished q) (lt-length_of_get_elem? ps pid e))

  pub length-end_profil : (pid : ℕ) (ps : List (Profil D)) → length (end_profil pid ps) ≡ length ps
  unfolding end_profil
  length-end_profil pid ps = elim (Option-cases (get_elem? ps pid)) [
    | inl e ↦ rw (end_profil, e) refl
    | inr (q, e) ↦ rw (end_profil, e) (length-set ps pid (finished q))
  ]

  pub get_elem?_found :
      (ps : List (Profil D)) (i : ℕ) → i < length ps → (q : Profil D) × (get_elem? ps i ≡ some q)
  get_elem?_found [] i h = absurd (omega arith)
  get_elem?_found (p ∷ ps) zero h = (p, refl)
  get_elem?_found (p ∷ ps) (suc i) h = get_elem?_found ps i (omega arith)

  -- A profile that runs, and its number: it exists, and the number stands in the map of those to stop.
  abbrev pub Stoppable : MainTask D → ℕ → ℕ → Type 0
  Stoppable w num pid =
      ((num == 0) ≡ false) × (pid < length w.profils) × (id : ℕ) × (find num w.stops ≡ some id)

  abbrev pub AllStoppable : MainTask D → List (ℕ × ℕ) → Type 0
  AllStoppable w run = (num pid : ℕ) → find num run ≡ some pid → Stoppable w num pid

module _ {D : Type 0} (env : Env D) where
  -- The part of the task that the planning leaves alone.
  abbrev pub kept : MainTask D → List (ℕ × ℕ) × List (Profil D)
  kept w = (w.stops, w.profils)

  kept-plan_slot :
      (off : ℤ) (d : DefPlanification) (w : MainTask D) → kept (plan_slot env off d w) ≡ kept w
  unfolding plan_slot cancel launch_later
  kept-plan_slot off d w = ground arith

  kept-plan_slots :
      (off : ℤ) (ds : List DefPlanification) (w : MainTask D)
      → kept (plan_slots env off ds w) ≡ kept w
  unfolding plan_slots
  kept-plan_slots off [] w = refl
  kept-plan_slots off (d ∷ ds) w =
      kept-plan_slots off ds (plan_slot env off d w) ∙ kept-plan_slot off d w

  pub kept-i_init_planification :
      (off : ℤ) (w : MainTask D) → kept (i_init_planification env off true w).0 ≡ kept w
  unfolding i_init_planification
  kept-i_init_planification off w = kept-plan_slots off w.params.planifs w

  abbrev launches : ℕ → ℤ → List DefPlanification → MainTask D → MainTask D
  launches tw off [] w = w
  launches tw off (d ∷ ds) w = launches tw off ds (launch env tw off d w)

  launch_all-slots_of :
      (tw : ℕ) (off : ℤ) (num : ℕ) (ds : List DefPlanification) (w : MainTask D)
      → launch_all env tw off num ds w ≡ launches tw off (slots_of num ds) w
  unfolding launch_all
  launch_all-slots_of tw off num [] w = refl
  launch_all-slots_of tw off num (d ∷ ds) w = elim (Bool-cases (d.numero_planif == num)) [
    | inl e ↦ rw e (launch_all-slots_of tw off num ds (launch env tw off d w))
    | inr e ↦ rw e (launch_all-slots_of tw off num ds w)
  ]

  -- The callback of a launch, when the number waits and one slot has it.
  pub call_back-launch :
      (tw : ℕ) (off : ℤ) (num id : ℕ) (d : DefPlanification) (w : MainTask D)
      → (num == 0) ≡ false
      → find num w.lanceur ≡ some id
      → slots_of num w.params.planifs ≡ d ∷ []
      → call_back env tw off (start_profil num) w
        ≡ some (launch env tw off d (record w { lanceur = erase num w.lanceur }))
  unfolding call_back i_start_profil
  call_back-launch tw off num id d w nz waits one =
      let w0 = record w { lanceur = erase num w.lanceur } in
      rw (nz, waits, launch_all-slots_of tw off num w.params.planifs w0, one) refl

  pub stops-launch :
      (tw : ℕ) (off : ℤ) (d : DefPlanification) (w : MainTask D)
      → (launch env tw off d w).stops ≡ assign d.numero_profil (length w.timers) w.stops
  unfolding launch
  stops-launch tw off d w = refl

  pub length-launch :
      (tw : ℕ) (off : ℤ) (d : DefPlanification) (w : MainTask D)
      → length (launch env tw off d w).profils ≡ length w.profils + 1
  unfolding launch
  length-launch tw off d w = length-append w.profils _

  pub launch-AllStoppable :
      (tw : ℕ) (off : ℤ) (d : DefPlanification) (w : MainTask D) (run : List (ℕ × ℕ))
      → (d.numero_profil == 0) ≡ false
      → AllStoppable w run
      → AllStoppable (launch env tw off d w) ((d.numero_profil, length w.profils) ∷ run)
  launch-AllStoppable tw off d w run nz h num pid e =
      let more = length-launch tw off d w in
      let entry = find-assign d.numero_profil num (length w.timers) w.stops in
      elim (Bool-cases (d.numero_profil == num)) [
        | inl same ↦
            let pid_eq : length w.profils ≡ pid = ground arith in
            (
              ground arith,
              omega arith,
              length w.timers,
              rw (stops-launch tw off d w, entry, same) refl,
            )
        | inr ne ↦
            let (num_nz, low, id, has) = h num pid (rw ne at e) in
            (num_nz, omega arith, id, rw (stops-launch tw off d w, entry, ne) has)
      ]

  pub stop-AllStoppable :
      (n p id : ℕ) (w : MainTask D) (run : List (ℕ × ℕ))
      → find n w.stops ≡ some id
      → AllStoppable w run
      → AllStoppable
          (record w { stops = erase n w.stops; profils = end_profil p w.profils })
          (erase n run)
  stop-AllStoppable n p id w run found h num pid e = elim (Bool-cases (n == num)) [
    | inl same ↦
        let gone : find num (erase n run) ≡ none = rw (find-erase n num run, same) refl in cc
    | inr ne ↦
        let still : find num run ≡ some pid = sym (rw (find-erase n num run, ne) refl) ∙ e in
        let (nz, low, id', has) = h num pid still in
        (nz, rw (length-end_profil p w.profils) low, id', rw (find-erase n num w.stops, ne) has)
  ]

  pub call_back-stop :
      (tw : ℕ) (off : ℤ) (num pid id : ℕ) (w : MainTask D)
      → (num == 0) ≡ false
      → find num w.stops ≡ some id
      → call_back env tw off (stop_profil num pid) w
        ≡ some (record w { stops = erase num w.stops; profils = end_profil pid w.profils })
  unfolding call_back
  call_back-stop tw off num pid id w nz found = rw (i_stop_profil-found num pid id w nz found) refl

  call_back-stopped :
      (tw : ℕ) (off : ℤ) (num pid : ℕ) (w : MainTask D)
      → (num == 0) ≡ false
      → find num w.stops ≡ none
      → call_back env tw off (stop_profil num pid) w ≡ none
  unfolding call_back i_stop_profil
  call_back-stopped tw off num pid w nz gone = rw (nz, gone) refl

  -- When a profile is launched again while it runs, the timer of either of the two profiles can call
  -- back: this profile is then told to stop and to free itself, and the number leaves the map. When
  -- the timer of the other then calls back, whichever it is, `iStopProfil` erases the end of its map.
  -- The number of the profile is not 0.
  pub launch-twice :
      (tw : ℕ) (off off' later later' : ℤ) (pid pid' : ℕ) (d d' : DefPlanification) (w : MainTask D)
      → (d.numero_profil == 0) ≡ false
      → d'.numero_profil ≡ d.numero_profil
      → (pid ≡ length w.profils) ⊎ (pid ≡ length w.profils + 1)
      → let num = d.numero_profil in
        let w1 = launch env tw off d w in
        let w2 = launch env tw off' d' w1 in
        (w3 : MainTask D) × (p : Profil D) × (call_back env tw later (stop_profil num pid) w2
          ≡ some w3)
        × (get_elem? w3.profils pid ≡ some p)
        × (p.thread.arret ≡ 1)
        × (p.thread.auto_delete ≡ true)
        × (find num w3.stops ≡ none)
        × (call_back env tw later' (stop_profil num pid') w3 ≡ none)
  launch-twice tw off off' later later' pid pid' d d' w nz same which =
      let num = d.numero_profil in
      let w1 = launch env tw off d w in
      let w2 = launch env tw off' d' w1 in
      let tid = length w1.timers in
      let w3 = record w2 { stops = erase num w2.stops; profils = end_profil pid w2.profils } in
      let found : find num w2.stops ≡ some tid =
        rw (stops-launch tw off' d' w1)
          (ground (arith, find-assign d'.numero_profil num tid w1.stops)) in
      let gone : find num w3.stops ≡ none = ground (arith, find-erase num num w2.stops) in
      let two = length-launch tw off' d' w1 in
      let (q, there) =
        get_elem?_found w2.profils pid (omega (arith, two, length-launch tw off d w)) in
      let (told, freed) = finished_lem q in
      (
        w3,
        finished q,
        call_back-stop tw later num pid tid w2 nz found,
        get_elem?-end_profil_self pid w2.profils q there,
        told,
        freed,
        gone,
        call_back-stopped tw later' num pid' w3 nz gone,
      )
