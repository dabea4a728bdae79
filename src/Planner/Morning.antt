-- ===== src/Planner/Morning.antt =====
-- The first hours of a day of the main task: the plans are made, the profile of the night is stopped
-- and that of the day is launched.
use gest_aqua.Prelude.{Bool, Bool-cases, Option, ap, arith, eq_ℤ, erase, false, find, find-erase}
use gest_aqua.Prelude.{inl, inr, length, ltb, none, pos, refl, some, some-injective, subst, sym}
use gest_aqua.Prelude.{true, ℕ, ℤ, ◌+◌, ◌<◌, ◌∙◌, ◌≡◌}
use gest_aqua.Config.{max_planif_profil}
use gest_aqua.Config.Change.{default_planifs}
use gest_aqua.Config.Init.{Memcmp}
use gest_aqua.Double.{Double}
use gest_aqua.Planner.{Env, MainTask}
use gest_aqua.Planner.Daily.{day_tick_lem}
use gest_aqua.Planner.Life.{kept-day_tick}
use gest_aqua.Planner.Main.{Now, day_tick}
use gest_aqua.Planner.Moves.{Kept, Kept-trans, Told-after_launch, after_launch-Kept}
use gest_aqua.Planner.Moves.{after_stop-Kept, find-after_launch_ne, find-after_launch_self}
use gest_aqua.Planner.Moves.{lanceur-after_launch}
use gest_aqua.Planner.Plan.{InRange}
use gest_aqua.Planner.Running.{length-end_profil}
use gest_aqua.Planner.Served.{Ends, Launches, after_launch, after_launch-Launches, after_stop}
use gest_aqua.Planner.Served.{after_stop-Ends, armed-find, length-after_launch, planifs-day_tick}
use gest_aqua.Planner.Told.{Told, end_profil-Told}

-- The times of a day: what the clock gives at its first second, the moments of the two launches with
-- the time left of their plans then, and those of the callbacks that stop a profile. `first` says
-- whether the profile of the night before is stopped before the launch of 8 h.
pub record DayTimes : Type 0 where
  pub now : Now
  pub yday : ℤ
  pub off : ℕ
  pub first : Bool
  pub night_end : ℤ
  pub t : ℕ
  pub left : ℕ
  pub later : ℤ
  pub t' : ℕ
  pub left' : ℕ

-- The first second comes before 8 h of a day that is not `last`, and each launch before the end of
-- its plan.
abbrev pub IsDay : ℤ → DayTimes → Type 0
IsDay last d =
    (d.now.yday ≡ some d.yday)
    × (eq_ℤ d.yday last ≡ false)
    × (d.now.offset ≡ pos d.off)
    × (d.off < 28800)
    × ((0 < d.left) × (d.t + d.left ≡ 72000))
    × ((0 < d.left') × (d.t' < 86400) × (d.t' + d.left' ≡ 115200))

module _ (F : Double) (cmp : Memcmp F.Val) (env : Env F.Val) where
  -- What a profile of the night leaves, from 20 h on.
  abbrev pub Carries : Option ℕ → MainTask F.Val → Type 0
  Carries none w = Unit
  Carries (some pid) w = (id : ℕ) × (find 2 w.stops ≡ some id) × (pid < length w.profils)

  -- The morning: the launch of 8 h, and the end of the profile of the night before, if there is one.
  abbrev pub Morning : Option ℕ → DayTimes → MainTask F.Val → MainTask F.Val → Type 0
  Morning none d w w2 = Launches F cmp env 1 d.t d.left (length w.profils) w w2
  Morning (some pid) d w w2 = (w1 : MainTask F.Val) × elim (d.first) [
    | true ↦
        Ends F cmp env 2 d.night_end pid w w1
        × Launches F cmp env 1 d.t d.left (length w.profils) w1 w2
    | false ↦
        Launches F cmp env 1 d.t d.left (length w.profils) w w1
        × Ends F cmp env 2 d.night_end pid w1 w2
  ]

  -- What a day finds when its plans are made, and what its morning leaves.
  pub record Planned (w : MainTask F.Val) : Type 0 where
    pub table : w.params.planifs ≡ default_planifs F
    pub waits : (id : ℕ) × (find 1 w.lanceur ≡ some id)
    pub waits' : (id : ℕ) × (find 2 w.lanceur ≡ some id)

  pub record Begun (night : Option ℕ) (w w2 : MainTask F.Val) : Type 0 where
    pub kept : Kept F cmp env w w2
    pub waiting : w2.lanceur ≡ erase 1 w.lanceur
    pub one_more : length w2.profils ≡ length w.profils + 1
    pub runs : (id : ℕ) × (find 1 w2.stops ≡ some id)
    pub night_told : (pid : ℕ) → night ≡ some pid → Told w2.profils pid

  pub launch_morning :
      (d : DayTimes) (w : MainTask F.Val)
      → (0 < d.left) × (d.t + d.left ≡ 72000)
      → Planned w
      → Launches F cmp env 1 d.t d.left (length w.profils) w (after_launch F cmp env 1 8 d.t w)
  launch_morning d w (some_left, sum) h =
      after_launch-Launches F cmp env 1 8 d.t d.left h.waits.0 w refl (omega arith) (omega arith)
        some_left (omega arith) h.waits.1 (rw (h.table) refl)

  pub morning :
      (night : Option ℕ) (d : DayTimes) (w : MainTask F.Val)
      → (0 < d.left) × (d.t + d.left ≡ 72000)
      → Planned w
      → Carries night w
      → (w2 : MainTask F.Val) × Morning night d w w2 × Begun night w w2
  morning none d w time h carries = (
    after_launch F cmp env 1 8 d.t w,
    launch_morning d w time h,
    record {
      kept = after_launch-Kept F cmp env 1 8 d.t w;
      waiting = lanceur-after_launch F cmp env 1 8 d.t w;
      one_more = length-after_launch F cmp env 1 8 d.t w;
      runs = (_, find-after_launch_self F cmp env 1 8 d.t w);
      night_told = λ pid e. cc;
    },
  )
  morning (some pid) d w time h (id, has, low) = elim (Bool-cases d.first) [
    | inl e ↦
        let w1 = after_stop F cmp env 2 pid w in
        let w2 = after_launch F cmp env 1 8 d.t w1 in
        let same = length-end_profil pid w.profils in
        let h1 : Planned w1 = record { table = h.table; waits = h.waits; waits' = h.waits' } in
        let starts = launch_morning d w1 time h1 in
        (
          w2,
          (
            w1,
            rw e (
              after_stop-Ends F cmp env 2 pid id d.night_end w refl has low,
              subst (λ n. Launches F cmp env 1 d.t d.left n w1 w2) same starts,
            ),
          ),
          record {
            kept =
                Kept-trans F cmp env w w1 w2 (after_stop-Kept F cmp env 2 pid w)
                  (after_launch-Kept F cmp env 1 8 d.t w1);
            waiting = lanceur-after_launch F cmp env 1 8 d.t w1;
            one_more = length-after_launch F cmp env 1 8 d.t w1 ∙ ap (λ n. n + 1) same;
            runs = (_, find-after_launch_self F cmp env 1 8 d.t w1);
            night_told = λ i e'.
                subst (Told w2.profils) (some-injective _ _ e')
                  (Told-after_launch F cmp env 1 8 d.t pid w1 (end_profil-Told pid w.profils low));
          },
        )
    | inr e ↦
        let w1 = after_launch F cmp env 1 8 d.t w in
        let w2 = after_stop F cmp env 2 pid w1 in
        let more = length-after_launch F cmp env 1 8 d.t w in
        let low1 : pid < length w1.profils = omega arith in
        let still = find-after_launch_ne F cmp env 1 8 d.t 2 w refl ∙ has in
        (
          w2,
          (
            w1,
            rw e (
              launch_morning d w time h,
              after_stop-Ends F cmp env 2 pid id d.night_end w1 refl still low1,
            ),
          ),
          record {
            kept =
                Kept-trans F cmp env w w1 w2 (after_launch-Kept F cmp env 1 8 d.t w)
                  (after_stop-Kept F cmp env 2 pid w1);
            waiting = lanceur-after_launch F cmp env 1 8 d.t w;
            one_more = length-end_profil pid w1.profils ∙ more;
            runs = (_, find-erase 2 1 w1.stops ∙ find-after_launch_self F cmp env 1 8 d.t w);
            night_told = λ i e'.
                subst (Told w2.profils) (some-injective _ _ e')
                  (end_profil-Told pid w1.profils low1);
          },
        )
  ]

  pub day_tick-Planned :
      (d : DayTimes) (w : MainTask F.Val)
      → IsDay w.last_day d
      → length w.params.planifs ≡ max_planif_profil
      → InRange w
      → Planned (day_tick F cmp env d.now w)
        × InRange (day_tick F cmp env d.now w)
        × ((day_tick F cmp env d.now w).last_day ≡ d.yday)
  day_tick-Planned d w (new, ne, o, early, _, _) n h =
      let w0 = day_tick F cmp env d.now w in
      let ticked = day_tick_lem F cmp env d.now d.yday d.off w new ne o (omega arith) n h in
      let (table, in_range) = planifs-day_tick F cmp env d.now d.yday d.off w new ne o n h in
      let before : ltb d.off 28800 ≡ true = ground arith in
      let before' : ltb d.off 72000 ≡ true = ground arith in
      (
        record {
          table = table;
          waits = armed-find F cmp env 1 _ w0 _ (rw before at ticked.0);
          waits' = armed-find F cmp env 2 _ w0 _ (rw before' at ticked.1);
        },
        in_range,
        ticked.2,
      )

  pub Carries-day_tick :
      (night : Option ℕ) (now : Now) (w : MainTask F.Val)
      → Carries night w
      → Carries night (day_tick F cmp env now w)
  Carries-day_tick none now w h = tt
  Carries-day_tick (some pid) now w h =
      let same = kept-day_tick F cmp env now w in
      subst (λ v. (id : ℕ) × (find 2 v.0 ≡ some id) × (pid < length v.1)) (sym same) h
