-- ===== src/Planner/Day.antt =====
-- `iInitPlanification` over the whole table of plans, and the tasks of the main loop that call it.
use gest_aqua.Prelude.{All, All-zip, Bool-cases, List, [], ap, arith, inl, inr, pos, refl, sym}
use gest_aqua.Prelude.{true, ℕ, ℤ, ◌==◌, ◌∙◌, ◌∷◌, ◌≡◌, ◌≢◌, ◌⊎◌}
use gest_aqua.Config.{DefPlanification}
use gest_aqua.Planner.{Env, MainTask, cancel, i_init_planification, launch_later, plan_slot}
use gest_aqua.Planner.{plan_slots}
use gest_aqua.Planner.Plan.{InRange, InRange-plan_slot, Near, armed, armed-plan_slot_ne}
use gest_aqua.Planner.Plan.{armed-plan_slot_self, planned}

module _ {D : Type 0} (env : Env D) where
  -- A slot whose number is another one, or that is free, leaves the launch of a number as it is.
  abbrev pub Spares : ℕ → DefPlanification → Type 0
  Spares j d = (d.numero_planif ≢ j) ⊎ (d.numero_planif ≡ 0)

  -- No two slots in use have one number.
  abbrev pub AllApart : List DefPlanification → Type 0
  AllApart [] = Unit
  AllApart (d ∷ ds) = All (Spares d.numero_planif) ds × AllApart ds

  plan_slot-Spares :
      (off : ℤ) (j : ℕ) (d : DefPlanification) (w : MainTask D)
      → Spares j d
      → InRange w
      → armed (plan_slot env off d w) j ≡ armed w j
  unfolding plan_slot
  plan_slot-Spares off j d w (inl ne) h = armed-plan_slot_ne env off d j w ne h
  plan_slot-Spares off j d w (inr e) h = rw e refl

  plan_slots-Spares :
      (off : ℤ) (j : ℕ) (ds : List DefPlanification) (w : MainTask D)
      → All (Spares j) ds
      → InRange w
      → armed (plan_slots env off ds w) j ≡ armed w j
  unfolding plan_slots
  plan_slots-Spares off j [] w hs h = refl
  plan_slots-Spares off j (d ∷ ds) w (s, hs) h =
      plan_slots-Spares off j ds (plan_slot env off d w) hs (InRange-plan_slot env off d w h)
      ∙ plan_slot-Spares off j d w s h

  InRange-plan_slots :
      (off : ℤ) (ds : List DefPlanification) (w : MainTask D)
      → InRange w
      → InRange (plan_slots env off ds w)
  unfolding plan_slots
  InRange-plan_slots off [] w h = h
  InRange-plan_slots off (d ∷ ds) w h =
      InRange-plan_slots off ds (plan_slot env off d w) (InRange-plan_slot env off d w h)

  params-plan_slot :
      (off : ℤ) (d : DefPlanification) (w : MainTask D) → (plan_slot env off d w).params ≡ w.params
  unfolding plan_slot cancel launch_later
  params-plan_slot off d w = ground arith

  pub params-plan_slots :
      (off : ℤ) (ds : List DefPlanification) (w : MainTask D)
      → (plan_slots env off ds w).params ≡ w.params
  unfolding plan_slots
  params-plan_slots off [] w = refl
  params-plan_slots off (d ∷ ds) w =
      params-plan_slots off ds (plan_slot env off d w) ∙ params-plan_slot off d w

  last_day-plan_slot :
      (off : ℤ) (d : DefPlanification) (w : MainTask D)
      → (plan_slot env off d w).last_day ≡ w.last_day
  unfolding plan_slot cancel launch_later
  last_day-plan_slot off d w = ground arith

  pub last_day-plan_slots :
      (off : ℤ) (ds : List DefPlanification) (w : MainTask D)
      → (plan_slots env off ds w).last_day ≡ w.last_day
  unfolding plan_slots
  last_day-plan_slots off [] w = refl
  last_day-plan_slots off (d ∷ ds) w =
      last_day-plan_slots off ds (plan_slot env off d w) ∙ last_day-plan_slot off d w

  -- What waits under each number of the table is what is planned from what waited before.
  abbrev pub IsPlanned : ℤ → MainTask D → MainTask D → DefPlanification → Type 0
  IsPlanned off before after d =
      armed after d.numero_planif ≡ planned off d (armed before d.numero_planif)

  IsPlanned-Spares :
      (off : ℤ) (d e : DefPlanification) (w after : MainTask D)
      → Spares d.numero_planif e
      → InRange w
      → IsPlanned off (plan_slot env off d w) after e
      → IsPlanned off w after e
  unfolding plan_slot
  IsPlanned-Spares off d e w after (inl ne) h eq =
      eq ∙ rw (armed-plan_slot_ne env off d e.numero_planif w (λ p. ne (sym p)) h) refl
  IsPlanned-Spares off d e w after (inr z) h eq = elim (Bool-cases (d.numero_planif == 0)) [
    | inl t ↦ rw t at eq
    | inr t ↦
        let ne : d.numero_planif ≢ e.numero_planif = ground arith in
        eq ∙ rw (armed-plan_slot_ne env off d e.numero_planif w ne h) refl
  ]

  plan_slots-IsPlanned :
      (off : ℤ) (ds : List DefPlanification) (w : MainTask D)
      → AllApart ds
      → All (Near off) ds
      → InRange w
      → All (IsPlanned off w (plan_slots env off ds w)) ds
  unfolding plan_slots
  plan_slots-IsPlanned off [] w apart near h = tt
  plan_slots-IsPlanned off (d ∷ ds) w (a, apart) (n, near) h =
      let w1 = plan_slot env off d w in
      let h1 = InRange-plan_slot env off d w h in
      let after = plan_slots env off ds w1 in
      (
        plan_slots-Spares off d.numero_planif ds w1 a h1 ∙ armed-plan_slot_self env off d w n h,
        All-zip _ _ (IsPlanned off w after) ds (λ e s eq. IsPlanned-Spares off d e w after s h eq) a
            (plan_slots-IsPlanned off ds w1 apart near h1),
      )

  -- When no two slots in use have one number and no start is 2 ^ 40 seconds ahead,
  -- `iInitPlanification` returns 0 and clears the bit that says that the plans changed, and for each
  -- slot of the table what waits under its number is then: the launch of that plan after the seconds
  -- to its start when that is to come, the launch after 100 microseconds when its time runs, and
  -- what waited before when its time is over or the slot is free. The launches that wait are those
  -- of timers that exist.
  pub i_init_planification_lem :
      (off : ℤ) (w : MainTask D)
      → AllApart w.params.planifs
      → All (Near off) w.params.planifs
      → InRange w
      → let (w', err) = i_init_planification env off true w in
        All (IsPlanned off w w') w.params.planifs
        × (err ≡ pos 0)
        × (w'.params.change.param_planif_profil ≡ 0)
        × (w'.params.planifs ≡ w.params.planifs)
        × InRange w'
  unfolding i_init_planification
  i_init_planification_lem off w apart near h = (
    plan_slots-IsPlanned off w.params.planifs w apart near h,
    refl,
    refl,
    ap (λ p. p.planifs) (params-plan_slots off w.params.planifs w),
    InRange-plan_slots off w.params.planifs w h,
  )
