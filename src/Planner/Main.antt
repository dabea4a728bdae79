-- ===== src/Planner/Main.antt =====
-- MainTache.cpp: `CMainTask::Thread`. The clock is what `gmtime` and `tGetOffsetFromMidnight` give at
-- each second without a stop: the day of the year, and the seconds since midnight of the local time.
use gest_aqua.Prelude.{List, Option, [], eq_ℤ, get_elem?, if◌then◌else◌, negsuc, none, set, some}
use gest_aqua.Prelude.{true, ℕ, ℤ, ◌∷◌}
use gest_aqua.Config.Init.{Memcmp, pst_init}
use gest_aqua.Double.{Double}
use gest_aqua.Planner.{Callback, Env, MainTask, end_profil, i_init_planification, stop_profil}
use gest_aqua.Profil.{Profil}
use gest_aqua.Thread.{Next, Round, again, leave, select_loop, set_auto_delete}
use gest_aqua.Timer.{CTimer, stop}

pub record Now : Type 0 where
  pub yday : Option ℤ
  pub offset : ℤ

module _ (F : Double) (cmp : Memcmp F.Val) (env : Env F.Val) where
  -- What the loop does when its second is up.
  unfoldable pub day_tick : Now → MainTask F.Val → MainTask F.Val
  unfolding pst_init i_init_planification
  day_tick now w = elim (now.yday) [
    | none ↦ w
    | some day ↦
        if eq_ℤ day w.last_day
        then w
        else let (params, given) = pst_init F cmp w.params in
          let w' = record w { last_day = day; params = params } in
          elim given [ none ↦ w' | some p ↦ (i_init_planification env now.offset true w').0 ]
  ]

  -- The same on the clock's values to come.
  unfoldable pub main_tick : MainTask F.Val × List Now → (MainTask F.Val × List Now) × Next
  unfolding day_tick
  main_tick (w, []) = ((w, []), again)
  main_tick (w, now ∷ nows) = ((day_tick now w, nows), again)

-- `SetAutoDelete (1)` and `Stop` on the timer with an index.
unfoldable pub drop_timer : ℕ → List (CTimer Callback) → List (CTimer Callback)
unfolding stop set_auto_delete
drop_timer id ts = elim (get_elem? ts id) [
  | none ↦ ts
  | some t ↦ set ts id (stop (record t { thread = set_auto_delete true t.thread })).0
]

unfoldable pub drop_timers : List (ℕ × ℕ) → List (CTimer Callback) → List (CTimer Callback)
unfolding drop_timer
drop_timers [] ts = ts
drop_timers ((num, id) ∷ m) ts = drop_timers m (drop_timer id ts)

-- The profile of the object attached to a timer, if there is one.
unfoldable pub attached : Option (CTimer Callback) → Option ℕ
attached none = none
attached (some t) =
    if t.attache
    then elim (t.callback) [ some (stop_profil num pid) ↦ some pid | _ ↦ none ]
    else none

module _ {D : Type 0} where
  -- The body of the second loop of the end of `Thread`, and that loop, on the timers and the profiles.
  unfoldable pub end_one :
      ℕ → List (CTimer Callback) × List (Profil D) → List (CTimer Callback) × List (Profil D)
  unfolding attached end_profil drop_timer
  end_one id (ts, ps) = elim (attached (get_elem? ts id)) [
    | none ↦ (drop_timer id ts, ps)
    | some pid ↦ (drop_timer id ts, end_profil pid ps)
  ]

  unfoldable pub end_all :
      List (ℕ × ℕ)
      → List (CTimer Callback) × List (Profil D)
      → List (CTimer Callback) × List (Profil D)
  unfolding end_one
  end_all [] s = s
  end_all ((num, id) ∷ m) s = end_all m (end_one id s)

  -- The end of `Thread`: the two loops, each followed by `clear`.
  unfoldable pub release : MainTask D → MainTask D
  unfolding drop_timers end_all
  release w =
      let (timers, profils) = end_all w.stops (drop_timers w.lanceur w.timers, w.profils) in
      record w { lanceur = []; stops = []; timers = timers; profils = profils }

module _ (F : Double) (cmp : Memcmp F.Val) (env : Env F.Val) where
  -- `Thread`: the task and whether it still runs.
  unfoldable pub thread_main : List Round → List Now → MainTask F.Val → MainTask F.Val × Next
  unfolding main_tick release select_loop
  thread_main rounds nows w =
      if eq_ℤ w.thread.pipe_r (negsuc 0)
      then (release w, leave)
      else let ((w', rest), next) = select_loop true (main_tick F cmp env) rounds (w, nows) in
        elim next [ again ↦ (w', again) | leave ↦ (release w', leave) ]
