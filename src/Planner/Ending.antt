-- ===== src/Planner/Ending.antt =====
-- The end of the main task: every profile that runs is told to stop.
-- `SetAutoDelete (1)` and `Stop` on a timer.
use gest_aqua.Prelude.{All, All-erase, All-map, Bool-cases, List, Option-cases, [], ap, arith}
use gest_aqua.Prelude.{eq_ℤ, erase, find, get_elem?, inl, inr, length, refl, some}
use gest_aqua.Prelude.{some-injective, subst, sym, true, ℕ, ◌<◌, ◌==◌, ◌∙◌, ◌∷◌, ◌≡◌, ◌≢◌, ◌⊎◌}
use gest_aqua.Config.Init.{Memcmp, pst_init}
use gest_aqua.Double.{Double}
use gest_aqua.Planner.{Callback, Env, MainTask, end_profil}
use gest_aqua.Planner.Kept.{i_init_planification-IsGood, launch-IsGood, stop-IsGood}
use gest_aqua.Planner.Life.{Life, Life-AllStoppable, began, born, launched, stopped, ticked}
use gest_aqua.Planner.Main.{Now, attached, day_tick, drop_timer, drop_timers, end_all, end_one}
use gest_aqua.Planner.Main.{release}
use gest_aqua.Planner.Running.{call_back-launch, call_back-stop, length-end_profil}
use gest_aqua.Planner.Told.{Told, Told-end_profil, end_profil-Told}
use gest_aqua.Planner.Watched.{IsGood, IsLaunch, IsLaunch-change_at, IsLaunch-ne, Watches}
use gest_aqua.Planner.Watched.{Watches-change_at, Watches-change_at_ne, begin_timer, change_at}
use gest_aqua.Profil.{Profil}
use gest_aqua.Thread.{set_auto_delete}
use gest_aqua.Timer.{CTimer, stop}

abbrev drop : CTimer Callback → CTimer Callback
drop t = (stop (record t { thread = set_auto_delete true t.thread })).0

callback-drop : (t : CTimer Callback) → (drop t).callback ≡ t.callback
unfolding stop
callback-drop t = ground arith

drop_timer_lem : (id : ℕ) (ts : List (CTimer Callback)) → drop_timer id ts ≡ change_at drop id ts
unfolding drop_timer
drop_timer_lem id ts = refl

-- The timer of a running profile is none of those of the launches that wait.
Watches-drop_timers :
    (m : List (ℕ × ℕ)) (ts : List (CTimer Callback)) (id num pid : ℕ)
    → All (IsLaunch ts) m
    → Watches ts id num pid
    → Watches (drop_timers m ts) id num pid
unfolding drop_timers
Watches-drop_timers [] ts id num pid launches watches = watches
Watches-drop_timers ((n, i) ∷ m) ts id num pid (is_launch, launches) watches =
    let apart = IsLaunch-ne ts (n, i) id num pid is_launch watches in
    rw (drop_timer_lem i ts) (
      Watches-drop_timers m (change_at drop i ts) id num pid
        (All-map (IsLaunch ts) (IsLaunch (change_at drop i ts)) m
          (λ e h. IsLaunch-change_at drop i ts e callback-drop h) launches)
        (Watches-change_at_ne drop i ts id num pid apart watches))

module _ {D : Type 0} where
  end_one_cases :
      (id : ℕ) (ts : List (CTimer Callback)) (ps : List (Profil D))
      → ((end_one id (ts, ps)).1 ≡ ps) ⊎ (i : ℕ) × ((end_one id (ts, ps)).1 ≡ end_profil i ps)
  unfolding end_one
  end_one_cases id ts ps = elim (Option-cases (attached (get_elem? ts id))) [
    | inl e ↦ inl (rw (e, end_one) refl)
    | inr (pid, e) ↦ inr (pid, rw (e, end_one) refl)
  ]

  Told-end_one :
      (id pid : ℕ) (ts : List (CTimer Callback)) (ps : List (Profil D))
      → Told ps pid
      → Told (end_one id (ts, ps)).1 pid
  Told-end_one id pid ts ps told = elim (end_one_cases id ts ps) [
    | inl e ↦ subst (λ v. Told v pid) (sym e) told
    | inr (i, e) ↦ subst (λ v. Told v pid) (sym e) (Told-end_profil i pid ps told)
  ]

  length-end_one :
      (id : ℕ) (ts : List (CTimer Callback)) (ps : List (Profil D))
      → length (end_one id (ts, ps)).1 ≡ length ps
  length-end_one id ts ps = elim (end_one_cases id ts ps) [
    | inl e ↦ ap length e
    | inr (i, e) ↦ ap length e ∙ length-end_profil i ps
  ]

  Told-end_all :
      (m : List (ℕ × ℕ)) (pid : ℕ) (ts : List (CTimer Callback)) (ps : List (Profil D))
      → Told ps pid
      → Told (end_all m (ts, ps)).1 pid
  unfolding end_all
  Told-end_all [] pid ts ps told = told
  Told-end_all ((n, id) ∷ m) pid ts ps told =
      let (ts', ps') = end_one id (ts, ps) in
      Told-end_all m pid ts' ps' (Told-end_one id pid ts ps told)

  end_one-Watches :
      (id num pid : ℕ) (ts : List (CTimer Callback)) (ps : List (Profil D))
      → Watches ts id num pid
      → end_one id (ts, ps) ≡ (drop_timer id ts, end_profil pid ps)
  unfolding end_one
  end_one-Watches id num pid ts ps (t, has, c, on) =
      let found : attached (get_elem? ts id) ≡ some pid = unfold attached in rw (has, on, c) refl in
      rw (found, end_one) refl

  timers-end_one :
      (id : ℕ) (ts : List (CTimer Callback)) (ps : List (Profil D))
      → (end_one id (ts, ps)).0 ≡ drop_timer id ts
  unfolding end_one
  timers-end_one id ts ps = elim (Option-cases (attached (get_elem? ts id))) [
    | inl e ↦ rw (e, end_one) refl
    | inr (pid, e) ↦ rw (e, end_one) refl
  ]

  end_all-Told :
      (m : List (ℕ × ℕ)) (id num pid : ℕ) (ts : List (CTimer Callback)) (ps : List (Profil D))
      → find num m ≡ some id
      → Watches ts id num pid
      → pid < length ps
      → Told (end_all m (ts, ps)).1 pid
  unfolding end_all
  end_all-Told [] id num pid ts ps e watches low = cc
  end_all-Told ((n, i) ∷ m) id num pid ts ps e watches low =
      let (ts', ps') = end_one i (ts, ps) in
      elim (Bool-cases (i == id)) [
        | inl same ↦
            let p : i ≡ id = ground arith in
            let one = end_one-Watches id num pid ts ps watches in
            let told : Told ps' pid =
              subst (λ v. Told v pid) (ap (λ j. (end_one j (ts, ps)).1) (sym p) ∙ refl)
                (subst (λ v. Told v pid) (sym (ap (λ v. v.1) one)) (end_profil-Told pid ps low)) in
            Told-end_all m pid ts' ps' told
        | inr apart ↦
            let p : i ≢ id = ground arith in
            elim (Bool-cases (n == num)) [
              | inl head ↦ let bad : i ≡ id = some-injective _ _ (rw head at e) in absurd (p bad)
              | inr tail ↦
                  let later =
                    subst (λ v. Watches v id num pid)
                      (sym (timers-end_one i ts ps ∙ drop_timer_lem i ts))
                      (Watches-change_at_ne drop i ts id num pid p watches) in
                  end_all-Told m id num pid ts' ps' (rw tail at e) later
                    (rw (length-end_one i ts ps) low)
            ]
      ]

module _ (F : Double) (cmp : Memcmp F.Val) (env : Env F.Val) where
  day_tick-IsGood :
      (now : Now) (w : MainTask F.Val) (run : List (ℕ × ℕ))
      → IsGood w run
      → IsGood (day_tick F cmp env now w) run
  unfolding day_tick pst_init
  day_tick-IsGood now w run good = elim (Option-cases now.yday) [
    | inl e ↦ rw e good
    | inr (day, e) ↦ elim (Bool-cases (eq_ℤ day w.last_day)) [
      | inl same ↦ rw (e, same) good
      | inr new ↦
          let params = (pst_init F cmp w.params).0 in
          rw (e, new)
            (i_init_planification-IsGood env now.offset
              (record w { last_day = day; params = params }) run good)
    ]
  ]

  begin_IsGood :
      (id : ℕ) (w : MainTask F.Val) (run : List (ℕ × ℕ))
      → IsGood w run
      → IsGood (record w { timers = begin_timer id w.timers }) run
  begin_IsGood id w run (launches, watched) =
      let f = λ (t : CTimer Callback). record t { thread = record (t.thread) { started = true } } in
      (
        All-map (IsLaunch w.timers) (IsLaunch (change_at f id w.timers)) w.lanceur
            (λ e h. IsLaunch-change_at f id w.timers e (λ t. refl) h) launches,
        λ n p e.
            let (sid, has, watches) = watched n p e in
            (sid, has, Watches-change_at f id w.timers sid n p (λ t. (refl, refl)) watches),
      )

  Life-IsGood : {w : MainTask F.Val} {run : List (ℕ × ℕ)} → Life F cmp env w run → IsGood w run
  Life-IsGood (born w e waits) = (waits, λ num pid f. cc)
  Life-IsGood (began id {w = w} {run = run} l) = begin_IsGood id w run (Life-IsGood l)
  Life-IsGood (ticked now {w = w} {run = run} l) = day_tick-IsGood now w run (Life-IsGood l)
  Life-IsGood (launched tw off n id d {w = w} {run = run} l nz waits one nz' idle left e) =
      let w0 = record w { lanceur = erase n w.lanceur } in
      let (launches, watched) = Life-IsGood l in
      let made = sym (call_back-launch env tw off n id d w nz waits one) ∙ e in
      let good =
        launch-IsGood env tw off d w0 run left
          (All-erase (IsLaunch w.timers) n w.lanceur launches, watched) in
      subst (λ v. IsGood v ((d.numero_profil, length w.profils) ∷ run)) (some-injective _ _ made)
        good
  Life-IsGood (stopped tw off n p {w = w} {run = run} l g e) =
      let (nz, low, id, has) = Life-AllStoppable F cmp env l n p g in
      let made = sym (call_back-stop env tw off n p id w nz has) ∙ e in
      subst (λ v. IsGood v (erase n run)) (some-injective _ _ made)
        (stop-IsGood env n p w run (Life-IsGood l))

  -- In every state that the seconds, the timers that begin, the launches and the stops make, in any
  -- order, of a main task born with nothing to stop and only launches that wait, the end of the task
  -- tells each profile that runs to stop and to free itself, and leaves no launch to wait and no number
  -- to stop. A plan is launched only when it has time left, is the one of its number, and no profile
  -- with the number of its profile runs.
  pub release-Told :
      (num pid : ℕ) (w : MainTask F.Val) (run : List (ℕ × ℕ))
      → Life F cmp env w run
      → find num run ≡ some pid
      → Told (release w).profils pid × ((release w).lanceur ≡ []) × ((release w).stops ≡ [])
  unfolding release
  release-Told num pid w run l f =
      let (launches, watched) = Life-IsGood l in
      let (nz, low, sid, stops_has) = Life-AllStoppable F cmp env l num pid f in
      let (id, has, watches) = watched num pid f in
      (
        end_all-Told w.stops id num pid (drop_timers w.lanceur w.timers) w.profils has
            (Watches-drop_timers w.lanceur w.timers id num pid launches watches) low,
        refl,
        refl,
      )
