-- ===== src/Planner/Plan.antt =====
-- `iInitPlanification`: which launches wait after the day is planned.
use gest_aqua.Prelude.{All, All-erase, All-find, All-map, Bool, Bool-cases, Option, Option-cases}
use gest_aqua.Prelude.{[], arith, false, find, find-erase, get_elem?, get_elem?-append}
use gest_aqua.Prelude.{get_elem?-length, if◌then◌else◌, inl, inr, length, length-append, ltb_ℤ}
use gest_aqua.Prelude.{none, pos, pos_part, refl, some, to_u64, true, u64, ℕ, ℤ, ◌*◌, ◌++◌, ◌+ℤ◌}
use gest_aqua.Prelude.{◌+◌, ◌-ℤ◌, ◌<◌, ◌==◌, ◌^◌, ◌∙◌, ◌∷◌, ◌≡◌, ◌≢◌}
use gest_aqua.Config.{DefPlanification}
use gest_aqua.Planner.{Callback, Env, MainTask, armed_timer, cancel, launch_later, plan_slot}
use gest_aqua.Planner.{start_profil}
use gest_aqua.Planner.Timers.{length-stop_timer, view, view-armed_timer, view-stop_timer}
use gest_aqua.Timer.{micro_sec}

module _ {D : Type 0} where
  -- The launch of a plan that waits in `mLanceurProfil`: the duration and callback of its timer.
  abbrev pub armed : MainTask D → ℕ → Option (ℕ × Option Callback)
  armed w num = elim (find num w.lanceur) [ none ↦ none | some id ↦ view (get_elem? w.timers id) ]

  -- The indices in the map of launches are those of timers.
  abbrev pub InRange : MainTask D → Type 0
  InRange w = All (λ (e : ℕ × ℕ). e.1 < length w.timers) w.lanceur

  armed-cancel : (num j : ℕ) (w : MainTask D) → num ≢ j → armed (cancel num w) j ≡ armed w j
  unfolding cancel
  armed-cancel num j w ne = elim (Option-cases (find num w.lanceur)) [
    | inl e ↦ rw (e, cancel) refl
    | inr (id, e) ↦
        ground (arith, e, find-erase num j w.lanceur, view-stop_timer id (get_or_zero j) w.timers)
  ]
    where
      get_or_zero : ℕ → ℕ
      get_or_zero k = elim (find k w.lanceur) [ none ↦ 0 | some id ↦ id ]

  InRange-cancel : (num : ℕ) (w : MainTask D) → InRange w → InRange (cancel num w)
  unfolding cancel
  InRange-cancel num w h = elim (Option-cases (find num w.lanceur)) [
    | inl e ↦ rw (e, cancel) h
    | inr (id, e) ↦
        rw (e, cancel)
          (rw (length-stop_timer id w.timers)
            (All-erase (λ (e : ℕ × ℕ). e.1 < length w.timers) num w.lanceur h))
  ]

-- The duration that the code computes for a plan that is to come.
abbrev pub future_usec : ℤ → DefPlanification → ℕ
future_usec off d = u64 (to_u64 (d.planif.debut -ℤ off) * to_u64 (pos micro_sec))

-- When the launch of a plan is due, in microseconds from now: at its start if that is to come, at
-- once if its time runs, not at all if its time is over or it has no number.
abbrev pub due : ℤ → DefPlanification → Option ℕ
due off d =
    if d.numero_planif == 0
    then none
    else if ltb_ℤ off d.planif.debut
    then some (pos_part (d.planif.debut -ℤ off) * 1000000)
    else if ltb_ℤ off (d.planif.debut +ℤ d.planif.period)
    then some 100
    else none

-- The time to the start of a plan is below 2 ^ 40 seconds.
abbrev pub Near : ℤ → DefPlanification → Type 0
Near off d = pos_part (d.planif.debut -ℤ off) < 2 ^ 40

-- What is to wait under the number of a plan: its launch when that is due, else what waited before.
abbrev pub planned :
    ℤ → DefPlanification → Option (ℕ × Option Callback) → Option (ℕ × Option Callback)
planned off d old = elim (due off d) [
  | none ↦ old
  | some usec ↦ some (usec, some (start_profil d.numero_planif))
]

future_usec_lem :
    (off : ℤ) (d : DefPlanification)
    → Near off d
    → ltb_ℤ off d.planif.debut ≡ true
    → (future_usec off d ≡ pos_part (d.planif.debut -ℤ off) * 1000000) × (0 < future_usec off d)
unfolding ◌-ℤ◌
future_usec_lem off d near later = ground arith

module _ {D : Type 0} (env : Env D) where
  armed-launch_later_self :
      (num : ℕ) (auto : Bool) (usec : ℕ) (w : MainTask D)
      → 0 < usec
      → armed (launch_later env num auto usec w) num ≡ some (usec, some (start_profil num))
  unfolding launch_later
  armed-launch_later_self num auto usec w h =
      let t = armed_timer (env.timer (length w.timers)) (start_profil num) auto usec in
      ground (
        arith,
        get_elem?-length w.timers t,
        view-armed_timer (env.timer (length w.timers)) (start_profil num) auto usec h,
      )

  armed-launch_later_ne :
      (num j : ℕ) (auto : Bool) (usec : ℕ) (w : MainTask D)
      → num ≢ j
      → InRange w
      → armed (launch_later env num auto usec w) j ≡ armed w j
  unfolding launch_later
  armed-launch_later_ne num j auto usec w ne h =
      let t = armed_timer (env.timer (length w.timers)) (start_profil num) auto usec in
      elim (Option-cases (find j w.lanceur)) [
        | inl e ↦ ground (arith, e, find-erase num j w.lanceur)
        | inr (id, e) ↦
            let lt = All-find (λ (e : ℕ × ℕ). e.1 < length w.timers) j w.lanceur id h e in
            ground (arith, e, find-erase num j w.lanceur, get_elem?-append w.timers (t ∷ []) id lt)
      ]

  InRange-launch_later :
      (num : ℕ) (auto : Bool) (usec : ℕ) (w : MainTask D)
      → InRange w
      → InRange (launch_later env num auto usec w)
  unfolding launch_later
  InRange-launch_later num auto usec w h =
      let t = armed_timer (env.timer (length w.timers)) (start_profil num) auto usec in
      let more : length (w.timers ++ t ∷ []) ≡ length w.timers + 1 =
        length-append w.timers (t ∷ []) in
      (
        omega (arith, more),
        All-erase (λ (e : ℕ × ℕ). e.1 < length (w.timers ++ t ∷ [])) num w.lanceur
            (All-map (λ (e : ℕ × ℕ). e.1 < length w.timers) _ w.lanceur
              (λ e lt. omega (arith, more)) h),
      )

  pub InRange-plan_slot :
      (off : ℤ) (d : DefPlanification) (w : MainTask D)
      → InRange w
      → InRange (plan_slot env off d w)
  unfolding plan_slot
  InRange-plan_slot off d w h = elim (Bool-cases (d.numero_planif == 0)) [
    | inl e ↦ rw e h
    | inr e ↦ elim (Bool-cases (ltb_ℤ off d.planif.debut)) [
      | inl f ↦
          rw (e, f)
            (InRange-launch_later d.numero_planif true (future_usec off d)
              (cancel d.numero_planif w) (InRange-cancel d.numero_planif w h))
      | inr f ↦ elim (Bool-cases (ltb_ℤ off (d.planif.debut +ℤ d.planif.period))) [
        | inl g ↦ rw (e, f, g) (InRange-launch_later d.numero_planif false 100 w h)
        | inr g ↦ rw (e, f, g) h
      ]
    ]
  ]

  pub armed-plan_slot_self :
      (off : ℤ) (d : DefPlanification) (w : MainTask D)
      → Near off d
      → InRange w
      → armed (plan_slot env off d w) d.numero_planif ≡ planned off d (armed w d.numero_planif)
  unfolding plan_slot
  armed-plan_slot_self off d w near h = elim (Bool-cases (d.numero_planif == 0)) [
    | inl e ↦ rw (e, planned, due) refl
    | inr e ↦ elim (Bool-cases (ltb_ℤ off d.planif.debut)) [
      | inl f ↦
          let (eq, positive) = future_usec_lem off d near f in
          rw (e, f, planned, due)
            (armed-launch_later_self d.numero_planif true (future_usec off d)
                (cancel d.numero_planif w) positive
              ∙ rw eq refl)
      | inr f ↦ elim (Bool-cases (ltb_ℤ off (d.planif.debut +ℤ d.planif.period))) [
        | inl g ↦
            rw (e, f, g, planned, due)
              (armed-launch_later_self d.numero_planif false 100 w (omega arith))
        | inr g ↦ rw (e, f, g, planned, due) refl
      ]
    ]
  ]

  pub armed-plan_slot_ne :
      (off : ℤ) (d : DefPlanification) (j : ℕ) (w : MainTask D)
      → d.numero_planif ≢ j
      → InRange w
      → armed (plan_slot env off d w) j ≡ armed w j
  unfolding plan_slot
  armed-plan_slot_ne off d j w ne h = elim (Bool-cases (d.numero_planif == 0)) [
    | inl e ↦ rw e refl
    | inr e ↦ elim (Bool-cases (ltb_ℤ off d.planif.debut)) [
      | inl f ↦
          rw (e, f)
            (armed-launch_later_ne d.numero_planif j true (future_usec off d)
                (cancel d.numero_planif w) ne (InRange-cancel d.numero_planif w h)
              ∙ armed-cancel d.numero_planif j w ne)
      | inr f ↦ elim (Bool-cases (ltb_ℤ off (d.planif.debut +ℤ d.planif.period))) [
        | inl g ↦ rw (e, f, g) (armed-launch_later_ne d.numero_planif j false 100 w ne h)
        | inr g ↦ rw (e, f, g) refl
      ]
    ]
  ]
