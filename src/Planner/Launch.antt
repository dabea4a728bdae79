-- ===== src/Planner/Launch.antt =====
-- `iStartProfil` and `iStopProfil`: a launched profile is stopped by the timer recorded for it.
use gest_aqua.Prelude.{List, [], arith, erase, false, find, find-erase, get_elem?}
use gest_aqua.Prelude.{get_elem?-length, get_elem?-set_self, length, length-append, none, pos}
use gest_aqua.Prelude.{refl, some, true, ℕ, ℤ, ◌++◌, ◌<◌, ◌==◌, ◌∷◌, ◌≡◌}
use gest_aqua.Config.{DefPlanification}
use gest_aqua.Planner.{Env, MainTask, armed_timer, call_back, end_profil, i_stop_profil, launch}
use gest_aqua.Planner.{remaining_usec, stop_profil}
use gest_aqua.Planner.Timers.{view, view-armed_timer}
use gest_aqua.Profil.{Profil, new_profil, set_debut, set_duree_profil, start_thread}
use gest_aqua.Thread.{new_thread, set_arret, set_auto_delete}

module _ {D : Type 0} where
  -- A profile that is told to stop and to free itself.
  abbrev pub finished : Profil D → Profil D
  finished p = record p { thread = set_arret 1 (set_auto_delete true p.thread) }

  get_elem?-end_profil :
      (ps : List (Profil D)) (q : Profil D)
      → get_elem? (end_profil (length ps) (ps ++ q ∷ [])) (length ps) ≡ some (finished q)
  unfolding end_profil
  get_elem?-end_profil ps q =
      rw (end_profil, get_elem?-length ps q)
        (get_elem?-set_self (ps ++ q ∷ []) (length ps) (finished q)
          (omega (arith, length-append ps (q ∷ []))))

  pub finished_lem :
      (q : Profil D) → ((finished q).thread.arret ≡ 1) × ((finished q).thread.auto_delete ≡ true)
  unfolding set_arret set_auto_delete
  finished_lem q = ground arith

  -- `iStopProfil` of a number that stands in the map.
  pub i_stop_profil-found :
      (num pid id : ℕ) (w : MainTask D)
      → (num == 0) ≡ false
      → find num w.stops ≡ some id
      → i_stop_profil num (some pid) w
        ≡ some (record w { stops = erase num w.stops; profils = end_profil pid w.profils }, pos 0)
  unfolding i_stop_profil
  i_stop_profil-found num pid id w e f = rw (e, f) refl

module _ {D : Type 0} (env : Env D) where
  -- The launch of a plan records, under the number of its profile, a timer for the time left of the
  -- plan that will stop this very profile; when that timer calls back, whatever the time of day is
  -- then, the number is taken off the map, and the profile is told to stop and to free itself. The
  -- number of the profile and the time left are not 0.
  pub launch-call_back :
      (tw : ℕ) (off later : ℤ) (d : DefPlanification) (w : MainTask D)
      → (d.numero_profil == 0) ≡ false
      → 0 < remaining_usec tw off d.planif
      → let w1 = launch env tw off d w in
        let pid = length w.profils in
        let callback = stop_profil d.numero_profil pid in
        (id : ℕ) × (w2 : MainTask D) × (p : Profil D) × (find d.numero_profil w1.stops ≡ some id)
        × (view (get_elem? w1.timers id) ≡ some (remaining_usec tw off d.planif, some callback))
        × (call_back env tw later callback w1 ≡ some w2)
        × (find d.numero_profil w2.stops ≡ none)
        × (get_elem? w2.profils pid ≡ some p)
        × (p.thread.arret ≡ 1)
        × (p.thread.auto_delete ≡ true)
  unfolding launch call_back
  launch-call_back tw off later d w e r =
      let num = d.numero_profil in
      let tid = length w.timers in
      let pid = length w.profils in
      let w1 = launch env tw off d w in
      let found : find num w1.stops ≡ some tid = ground arith in
      let m = env.profil pid in
      let fresh =
        new_profil num (some w.params) (new_thread true m.attr_ok m.detach_ok m.mutex_ok m.garbage)
          (env.raw pid) in
      let q =
        start_thread m.os (set_duree_profil d.planif.period (set_debut d.planif.debut fresh)) in
      let gone : find num (erase num w1.stops) ≡ none =
        ground (arith, find-erase num num w1.stops) in
      let t =
        armed_timer (env.timer tid) (stop_profil num pid) false (remaining_usec tw off d.planif) in
      (
        tid,
        record w1 { stops = erase num w1.stops; profils = end_profil pid w1.profils },
        finished q,
        found,
        rw (get_elem?-length w.timers t)
            (view-armed_timer (env.timer tid) (stop_profil num pid) false _ r),
        rw (i_stop_profil-found num pid tid w1 e found) refl,
        gone,
        get_elem?-end_profil w.profils q,
        (finished_lem q).0,
        (finished_lem q).1,
      )
