-- ===== src/Planner/Replanned.antt =====
-- A plan that is made again while its launch still waits.
use gest_aqua.Prelude.{Bool, [], ap, arith, erase, false, find, find-assign, find-erase}
use gest_aqua.Prelude.{get_elem?, get_elem?-append, get_elem?-length, get_elem?-set_self}
use gest_aqua.Prelude.{if◌then◌else◌, leb_ℤ, length, length-set, lt-length_of_get_elem?, ltb_ℤ}
use gest_aqua.Prelude.{none, not, pos, refl, set, some, sym, true, ℕ, ℤ, ◌&&◌, ◌+◌, ◌<◌, ◌==◌}
use gest_aqua.Prelude.{◌∙◌, ◌∷◌, ◌≡◌}
use gest_aqua.Config.{DefPlanification}
use gest_aqua.Planner.{Callback, Env, MainTask, call_back, cancel, i_start_profil, launch}
use gest_aqua.Planner.{launch_later, plan_slot, start_profil, stop_timer}
use gest_aqua.Planner.Plan.{future_usec}
use gest_aqua.Planner.Running.{call_back-launch, length-launch, slots_of, stops-launch}
use gest_aqua.Profil.{Profil, init_profil, new_profil, set_debut, set_duree_profil, start_thread}
use gest_aqua.Thread.{new_thread}
use gest_aqua.Timer.{CTimer, stop}

-- Whether `Stop` reaches a timer: its thread has begun, is not over, and has a pipe.
abbrev pub is_reached : CTimer Callback → Bool
is_reached t = t.thread.started && (not (t.thread.arret == 2) && leb_ℤ (pos 0) t.thread.pipe_w)

stop-is_reached :
    (t : CTimer Callback)
    → (stop t).0 ≡ (
        if is_reached t
        then record t { thread = record t.thread { octets = t.thread.octets + 4 }; attache = false }
        else t)
unfolding stop
stop-is_reached t = ground arith

callback-stop : (t : CTimer Callback) → (stop t).0.callback ≡ t.callback
unfolding stop
callback-stop t = ground arith

module _ {D : Type 0} (env : Env D) where
  plan_slot-future :
      (off : ℤ) (d : DefPlanification) (w : MainTask D)
      → (d.numero_planif == 0) ≡ false
      → ltb_ℤ off d.planif.debut ≡ true
      → plan_slot env off d w
        ≡ launch_later env d.numero_planif true (future_usec off d) (cancel d.numero_planif w)
  unfolding plan_slot
  plan_slot-future off d w nz later = rw (nz, later) refl

  cancel-found :
      (num id : ℕ) (t : CTimer Callback) (w : MainTask D)
      → find num w.lanceur ≡ some id
      → get_elem? w.timers id ≡ some t
      → cancel num w
        ≡ record w { timers = set w.timers id (stop t).0; lanceur = erase num w.lanceur }
  unfolding cancel stop_timer
  cancel-found num id t w e has = rw (cancel, e, stop_timer, has) refl

  launch_later-keeps :
      (num : ℕ) (auto : Bool) (usec id : ℕ) (w : MainTask D)
      → id < length w.timers
      → let w' = launch_later env num auto usec w in
        (get_elem? w'.timers id ≡ get_elem? w.timers id)
        × (find num w'.lanceur ≡ some (length w.timers))
        × (w'.params ≡ w.params)
        × (w'.profils ≡ w.profils)
  unfolding launch_later
  launch_later-keeps num auto usec id w low =
      (get_elem?-append w.timers _ id low, ground arith, refl, refl)

  -- The callback of a launch that nothing waits for.
  call_back-launched :
      (tw : ℕ) (off : ℤ) (num : ℕ) (w : MainTask D)
      → (num == 0) ≡ false
      → find num w.lanceur ≡ none
      → call_back env tw off (start_profil num) w ≡ none
  unfolding call_back i_start_profil
  call_back-launched tw off num w nz gone = rw (nz, gone) refl

  lanceur-launch :
      (tw : ℕ) (off : ℤ) (d : DefPlanification) (w : MainTask D)
      → (launch env tw off d w).lanceur ≡ w.lanceur
  unfolding launch
  lanceur-launch tw off d w = refl

  -- What a launch adds at the end of the profiles, and in the map of those to stop.
  profils-launch :
      (tw : ℕ) (off : ℤ) (d : DefPlanification) (w : MainTask D)
      → (q : Profil D) × (get_elem? (launch env tw off d w).profils (length w.profils) ≡ some q)
        × (q.numero ≡ d.numero_profil)
        × (q.debut ≡ d.planif.debut)
  unfolding launch new_profil init_profil set_debut set_duree_profil start_thread
  profils-launch tw off d w =
      let m = env.profil (length w.profils) in
      let fresh =
        new_profil d.numero_profil (some w.params)
          (new_thread true m.attr_ok m.detach_ok m.mutex_ok m.garbage)
          (env.raw (length w.profils)) in
      let q =
        start_thread m.os (set_duree_profil d.planif.period (set_debut d.planif.debut fresh)) in
      (q, get_elem?-length w.profils q, ground arith, ground arith)

  entry-launch :
      (tw : ℕ) (off : ℤ) (d : DefPlanification) (w : MainTask D)
      → find d.numero_profil (launch env tw off d w).stops ≡ some (length w.timers)
  entry-launch tw off d w =
      rw (stops-launch env tw off d w)
        (ground (arith, find-assign d.numero_profil d.numero_profil (length w.timers) w.stops))

  -- A plan whose start is to come is made again while its launch waits. When the thread of the timer
  -- that waits has begun, is not over and has a pipe, its pipe is written four bytes and it loses
  -- the task that it is attached to; else it is as it was; in both cases it keeps its callback. The
  -- callback of the launch then launches the plan: there is one profile more, with the
  -- plan's number of a profile and its start, and the map of those to stop has a new timer under that number. When the other of the two
  -- timers still calls back, `iStartProfil` erases the end of its map. The plan is the one of its
  -- number, which is not 0.
  pub plan_slot-again :
      (tw : ℕ) (off later later' : ℤ) (d : DefPlanification) (id : ℕ) (t : CTimer Callback)
      (w : MainTask D)
      → (d.numero_planif == 0) ≡ false
      → ltb_ℤ off d.planif.debut ≡ true
      → slots_of d.numero_planif w.params.planifs ≡ d ∷ []
      → find d.numero_planif w.lanceur ≡ some id
      → get_elem? w.timers id ≡ some t
      → let w' = plan_slot env off d w in
        (t' : CTimer Callback) × (w'' : MainTask D) × (q : Profil D) × (get_elem? w'.timers id
          ≡ some t')
        × (t'.callback ≡ t.callback)
        × (t' ≡ (
            if is_reached t
            then record t {
              thread = record t.thread { octets = t.thread.octets + 4 };
              attache = false;
            }
            else t))
        × (call_back env tw later (start_profil d.numero_planif) w' ≡ some w'')
        × (length w''.profils ≡ length w.profils + 1)
        × (get_elem? w''.profils (length w.profils) ≡ some q)
        × (q.numero ≡ d.numero_profil)
        × (q.debut ≡ d.planif.debut)
        × (find d.numero_profil w''.stops ≡ some (length w'.timers))
        × (call_back env tw later' (start_profil d.numero_planif) w'' ≡ none)
  plan_slot-again tw off later later' d id t w nz future one waits has =
      let num = d.numero_planif in
      let w1 = record w { timers = set w.timers id (stop t).0; lanceur = erase num w.lanceur } in
      let w' = launch_later env num true (future_usec off d) w1 in
      let again : plan_slot env off d w ≡ w' =
        plan_slot-future off d w nz future
        ∙ ap (launch_later env num true (future_usec off d)) (cancel-found num id t w waits has) in
      let low = lt-length_of_get_elem? w.timers id has in
      let low1 : id < length w1.timers = rw (length-set w.timers id (stop t).0) low in
      let (same, found, params, profils) =
        launch_later-keeps num true (future_usec off d) id w1 low1 in
      let reached = stop-is_reached t in
      let w0 = record w' { lanceur = erase num w'.lanceur } in
      let w'' = launch env tw later d w0 in
      let (q, launched_q, numero, debut) = profils-launch tw later d w0 in
      let gone : find num w''.lanceur ≡ none =
        ap (find num) (lanceur-launch tw later d w0)
        ∙ find-erase num num w'.lanceur
        ∙ ground arith in
      rw again (
        (stop t).0,
        w'',
        q,
        same ∙ get_elem?-set_self w.timers id (stop t).0 low,
        callback-stop t,
        reached,
        call_back-launch env tw later num (length w1.timers) d w' nz found
            (ap (λ p. slots_of num p.planifs) params ∙ one),
        length-launch env tw later d w0 ∙ ap (λ ps. length ps + 1) profils,
        ap (λ ps. get_elem? w''.profils (length ps)) (sym profils) ∙ launched_q,
        numero,
        debut,
        entry-launch tw later d w0,
        call_back-launched tw later' num w'' nz gone,
      )
