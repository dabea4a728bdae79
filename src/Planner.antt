-- ===== src/Planner.antt =====
-- MainTache.h and MainTache.cpp: `CMainTask`, which launches and stops the profiles. The timers and
-- the profiles that it builds live in two arrays that only grow: a pointer is an index into one of
-- them, and its two maps hold such indices. `new` never gives a null pointer.
pub mod Timers
pub mod Plan
pub mod Day
pub mod Main
pub mod Daily
pub mod EachDay
pub mod Stop
pub mod Launch
pub mod Running
pub mod Told
pub mod Watched
pub mod Kept
pub mod Life
pub mod Ending
pub mod Served
pub mod Moves
pub mod Morning
pub mod Days
pub mod Replanned
use gest_aqua.Prelude.{Bool, List, Option, [], assign, erase, false, find, get_elem?}
use gest_aqua.Prelude.{if◌then◌else◌, length, ltb_ℤ, negsuc, none, pos, set, some, to_u64, true}
use gest_aqua.Prelude.{u64, wrap, ℕ, ℤ, ◌*ℤ◌, ◌*◌, ◌++◌, ◌+ℤ◌, ◌-ℤ◌, ◌==◌, ◌>>=◌, ◌∷◌}
use gest_aqua.Config.{DefPlanification, ParametreAppli, PlanificationTache}
use gest_aqua.Profil.{Profil, new_profil, set_debut, set_duree_profil, start_thread}
use gest_aqua.Thread.{CThread, Os, new_thread, set_arret, set_auto_delete}
use gest_aqua.Timer.{CTimer, micro_sec, new_timer, set_callback, start, stop, time_oneshot}

-- The callback of a timer with the object attached: PARAM_CALLBACK_START_PROFIL with the number of
-- the plan, PARAM_CALLBACK_STOP_PROFIL with the number of the profile and the profile.
pub data Callback : Type 0 where
  start_profil : ℕ → Callback
  stop_profil : ℕ → ℕ → Callback

pub record MainTask (D : Type 0) : Type 0 where
  pub thread : CThread
  pub last_day : ℤ
  pub params : ParametreAppli D
  pub lanceur : List (ℕ × ℕ)
  pub stops : List (ℕ × ℕ)
  pub timers : List (CTimer Callback)
  pub profils : List (Profil D)

-- What the system gives to an object: whether the pthread calls of its constructor succeed, the flag
-- that the constructor leaves unset, and the answers to `Create`.
pub record Machine : Type 0 where
  pub attr_ok : Bool
  pub detach_ok : Bool
  pub mutex_ok : Bool
  pub garbage : ℕ
  pub os : Os

-- The same for every timer and profile by index, and the memory that a new profile takes.
pub record Env (D : Type 0) : Type 0 where
  pub timer : ℕ → Machine
  pub profil : ℕ → Machine
  pub raw : ℕ → Profil D

-- `new CTimer ()`: a joinable thread.
unfoldable pub built_timer : Machine → CTimer Callback
unfolding new_timer new_thread
built_timer m = new_timer (new_thread false m.attr_ok m.detach_ok m.mutex_ok m.garbage)

-- `new CTimer`, `SetCallback`, `SetAutoDelete` when asked for, and `Start` for a one-shot.
unfoldable pub armed_timer : Machine → Callback → Bool → ℕ → CTimer Callback
unfolding built_timer start set_callback set_auto_delete
armed_timer m c auto usec =
    let t = set_callback c (built_timer m) in
    start m.os usec time_oneshot
      (if auto then record t { thread = set_auto_delete true t.thread } else t)

-- `pTimer->Stop ()` on the timer with an index.
unfoldable pub stop_timer : ℕ → List (CTimer Callback) → List (CTimer Callback)
unfolding stop
stop_timer id ts = elim (get_elem? ts id) [ none ↦ ts | some t ↦ set ts id (stop t).0 ]

-- The time left of a plan, in microseconds, as `iStartProfil` gives it to `Start`: the arithmetic is
-- that of a `time_t` of `tw` bits, and the result is converted to `uint64_t`.
unfoldable pub remaining_usec : ℕ → ℤ → PlanificationTache → ℕ
remaining_usec tw off p =
    to_u64 (wrap tw (wrap tw (p.period -ℤ wrap tw (off -ℤ p.debut)) *ℤ pos micro_sec))

module _ {D : Type 0} where
  -- The constructor of `CMainTask`, on the thread and the parameters that its parts build.
  unfoldable pub new_main_task : CThread → ParametreAppli D → MainTask D
  new_main_task thread params = record {
    thread = thread;
    last_day = negsuc 0;
    params = params;
    lanceur = [];
    stops = [];
    timers = [];
    profils = [];
  }

  -- The timer that waits to launch a plan is stopped and taken off the map.
  unfoldable pub cancel : ℕ → MainTask D → MainTask D
  unfolding stop_timer
  cancel num w = elim (find num w.lanceur) [
    | none ↦ w
    | some id ↦ record w { timers = stop_timer id w.timers; lanceur = erase num w.lanceur }
  ]

  -- `SetAutoDelete (1)` and `SetArretThread (1)` on the profile with an index.
  unfoldable pub end_profil : ℕ → List (Profil D) → List (Profil D)
  unfolding set_arret set_auto_delete
  end_profil pid ps = elim (get_elem? ps pid) [
    | none ↦ ps
    | some p ↦ set ps pid (record p { thread = set_arret 1 (set_auto_delete true p.thread) })
  ]

  -- `iStopProfil`
  unfoldable pub i_stop_profil : ℕ → Option ℕ → MainTask D → Option (MainTask D × ℤ)
  unfolding end_profil
  i_stop_profil num p w = elim p [
    | none ↦ some (w, negsuc 0)
    | some pid ↦ if num == 0 then some (w, negsuc 0) else elim (find num w.stops) [
      | none ↦ none
      | some id ↦
          some (record w { stops = erase num w.stops; profils = end_profil pid w.profils }, pos 0)
    ]
  ]

module _ {D : Type 0} (env : Env D) where
  -- A new timer for the launch of a plan, started and then recorded in `mLanceurProfil`.
  unfoldable pub launch_later : ℕ → Bool → ℕ → MainTask D → MainTask D
  unfolding armed_timer
  launch_later num auto usec w =
      let id = length w.timers in
      record w {
        timers = w.timers ++ armed_timer (env.timer id) (start_profil num) auto usec ∷ [];
        lanceur = assign num id w.lanceur;
      }

  -- The body of the loop of `iInitPlanification`, `off` being `tOffsetMidnight`.
  unfoldable pub plan_slot : ℤ → DefPlanification → MainTask D → MainTask D
  unfolding launch_later cancel
  plan_slot off d w =
      if d.numero_planif == 0
      then w
      else if ltb_ℤ off d.planif.debut
      then launch_later d.numero_planif true
          (u64 (to_u64 (d.planif.debut -ℤ off) * to_u64 (pos micro_sec))) (cancel d.numero_planif w)
      else if ltb_ℤ off (d.planif.debut +ℤ d.planif.period)
      then launch_later d.numero_planif false 100 w
      else w

  unfoldable pub plan_slots : ℤ → List DefPlanification → MainTask D → MainTask D
  unfolding plan_slot
  plan_slots off [] w = w
  plan_slots off (d ∷ ds) w = plan_slots off ds (plan_slot off d w)

  -- `iInitPlanification`; `given` says that the pointer is not null: it points to the task's own
  -- parameters.
  unfoldable pub i_init_planification : ℤ → Bool → MainTask D → MainTask D × ℤ
  unfolding plan_slots
  i_init_planification off given w =
      if given
      then (let w' = plan_slots off w.params.planifs w in
          let cleared = record (w'.params) {
            change = record (w'.params.change) { param_planif_profil = 0 };
          } in
          (record w' { params = cleared }, pos 0))
      else (w, negsuc 0)

  -- The body of the loop of `iStartProfil` for a plan with the number asked for: a profile, and the
  -- timer that stops it.
  unfoldable pub launch : ℕ → ℤ → DefPlanification → MainTask D → MainTask D
  unfolding armed_timer remaining_usec new_profil set_debut set_duree_profil start_thread new_thread
  launch tw off d w =
      let tid = length w.timers in
      let pid = length w.profils in
      let m = env.profil pid in
      let fresh =
        new_profil d.numero_profil (some w.params)
          (new_thread true m.attr_ok m.detach_ok m.mutex_ok m.garbage) (env.raw pid) in
      let p = set_duree_profil d.planif.period (set_debut d.planif.debut fresh) in
      let t =
        armed_timer (env.timer tid) (stop_profil d.numero_profil pid) false
          (remaining_usec tw off d.planif) in
      record w {
        timers = w.timers ++ t ∷ [];
        stops = assign d.numero_profil tid w.stops;
        profils = w.profils ++ start_thread m.os p ∷ [];
      }

  unfoldable pub launch_all : ℕ → ℤ → ℕ → List DefPlanification → MainTask D → MainTask D
  unfolding launch
  launch_all tw off num [] w = w
  launch_all tw off num (d ∷ ds) w =
      launch_all tw off num ds (if d.numero_planif == num then launch tw off d w else w)

  -- `iStartProfil`; `none` is `erase (end ())`, which the C++ library leaves undefined.
  unfoldable pub i_start_profil : ℕ → ℤ → ℕ → MainTask D → Option (MainTask D × ℤ)
  unfolding launch_all
  i_start_profil tw off num w = if num == 0 then some (w, negsuc 0) else elim (find num w.lanceur) [
    | none ↦ none
    | some id ↦
        some (
          launch_all tw off num w.params.planifs (record w { lanceur = erase num w.lanceur }),
          pos 0,
        )
  ]

  -- `fctStartProfil` and `fctStopProfil`: what a timer's callback does.
  unfoldable pub call_back : ℕ → ℤ → Callback → MainTask D → Option (MainTask D)
  unfolding i_start_profil i_stop_profil
  call_back tw off (start_profil num) w = i_start_profil tw off num w >>= λ r. some (r.0)
  call_back tw off (stop_profil num pid) w = i_stop_profil num (some pid) w >>= λ r. some (r.0)
