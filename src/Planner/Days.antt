-- ===== src/Planner/Days.antt =====
-- Day after day of the main task: what each day leaves to the next.
use gest_aqua.Prelude.{Bool-cases, List, Option, [], ap, ap₂, arith, dec_lt, find, find-erase}
use gest_aqua.Prelude.{inl, inr, length, none, refl, some, some-injective, subst, sym, ℕ, ℤ, ◌*◌}
use gest_aqua.Prelude.{◌+◌, ◌<◌, ◌==◌, ◌∙◌, ◌∷◌, ◌≡◌, ◌≤◌, ◌⊎◌}
use gest_aqua.Config.{max_planif_profil}
use gest_aqua.Config.Init.{Memcmp}
use gest_aqua.Double.{Double}
use gest_aqua.Planner.{Env, MainTask}
use gest_aqua.Planner.EachDay.{ends, times}
use gest_aqua.Planner.Life.{kept-day_tick}
use gest_aqua.Planner.Main.{Now, day_tick}
use gest_aqua.Planner.Morning.{Begun, Carries, Carries-day_tick, DayTimes, IsDay, Morning}
use gest_aqua.Planner.Morning.{Planned, day_tick-Planned, morning}
use gest_aqua.Planner.Moves.{Kept-trans, Told-after_launch, after_launch-Kept, after_stop-Kept}
use gest_aqua.Planner.Moves.{find-after_launch_self}
use gest_aqua.Planner.Plan.{InRange, planned}
use gest_aqua.Planner.Running.{length-end_profil}
use gest_aqua.Planner.Served.{Ends, Launches, after_launch, after_launch-Launches, after_stop}
use gest_aqua.Planner.Served.{after_stop-Ends, length-after_launch}
use gest_aqua.Planner.Told.{Told, end_profil-Told}

abbrev pub AreDays : ℤ → List DayTimes → Type 0
AreDays last [] = Unit
AreDays last (d ∷ ds) = IsDay last d × AreDays d.yday ds

module _ (F : Double) (cmp : Memcmp F.Val) (env : Env F.Val) where
  -- Every profile from `lo` on is told to stop, but that of the night.
  abbrev pub AllTold : ℕ → Option ℕ → MainTask F.Val → Type 0
  AllTold lo night w =
      (pid : ℕ) → lo ≤ pid → pid < length w.profils → (night ≡ some pid) ⊎ Told w.profils pid

  -- The days one after another: the plans are made, the morning passes, the profile of the day is
  -- stopped and that of the night is launched.
  abbrev pub AreServed : Option ℕ → List DayTimes → MainTask F.Val → MainTask F.Val → Type 0
  AreServed night [] w w' = w ≡ w'
  AreServed night (d ∷ ds) w w' =
      let w0 = day_tick F cmp env d.now w in
      (w2 : MainTask F.Val) × (w3 : MainTask F.Val) × (w4 : MainTask F.Val) × Morning F cmp env
        night d w0 w2
      × Ends F cmp env 1 d.later (length w0.profils) w2 w3
      × Launches F cmp env 2 d.t' d.left' (length w3.profils) w3 w4
      × AreServed (some (length w3.profils)) ds w4 w'

  -- What is true between two days.
  record Between (lo : ℕ) (last : ℤ) (night : Option ℕ) (w : MainTask F.Val) : Type 0 where
    sized : length w.params.planifs ≡ max_planif_profil
    in_range : InRange w
    day_seen : w.last_day ≡ last
    carries : Carries F cmp env night w
    all_told : AllTold lo night w

  AllTold-day_tick :
      (lo : ℕ) (night : Option ℕ) (now : Now) (w : MainTask F.Val)
      → AllTold lo night w
      → AllTold lo night (day_tick F cmp env now w)
  AllTold-day_tick lo night now w h =
      let same = kept-day_tick F cmp env now w in
      subst (λ v. (pid : ℕ) → lo ≤ pid → pid < length v.1 → (night ≡ some pid) ⊎ Told v.1 pid)
        (sym same) h

  -- The profiles of the days before, that of the night included, are told to stop after the morning.
  morning-Told :
      (lo pid : ℕ) (night : Option ℕ) (w w2 : MainTask F.Val)
      → AllTold lo night w
      → Begun F cmp env night w w2
      → lo ≤ pid
      → pid < length w.profils
      → Told w2.profils pid
  morning-Told lo pid night w w2 all begun le low = elim (all pid le low) [
    | inl e ↦ begun.night_told pid e
    | inr told ↦ begun.kept.told pid told
  ]

  -- The end of the profile of the day and the launch of that of the night.
  evening :
      (lo : ℕ) (night : Option ℕ) (d : DayTimes) (w w2 : MainTask F.Val)
      → (0 < d.left') × (d.t' < 86400) × (d.t' + d.left' ≡ 115200)
      → Planned F cmp env w
      → InRange w
      → w.last_day ≡ d.yday
      → lo ≤ length w.profils
      → AllTold lo night w
      → Begun F cmp env night w w2
      → let pid = length w.profils in
        let w3 = after_stop F cmp env 1 pid w2 in
        let w4 = after_launch F cmp env 2 20 d.t' w3 in
        Ends F cmp env 1 d.later pid w2 w3
        × Launches F cmp env 2 d.t' d.left' (length w3.profils) w3 w4
        × Between lo d.yday (some (length w3.profils)) w4
        × (length w4.profils ≡ length w.profils + 2)
  evening lo night d w w2 (some_left, day, sum) planned in_range seen le all begun =
      let pid = length w.profils in
      let w3 = after_stop F cmp env 1 pid w2 in
      let w4 = after_launch F cmp env 2 20 d.t' w3 in
      let (id, has) = begun.runs in
      let more = begun.one_more in
      let low : pid < length w2.profils = omega arith in
      let (id', waits') = planned.waits' in
      let still : find 2 w3.lanceur ≡ some id' =
        ap (find 2) (begun.waiting) ∙ find-erase 1 2 w.lanceur ∙ waits' in
      let table = begun.kept.table ∙ planned.table in
      let same = length-end_profil pid w2.profils in
      let longer = length-after_launch F cmp env 2 20 d.t' w3 in
      let kept =
        Kept-trans F cmp env w2 w3 w4 (after_stop-Kept F cmp env 1 pid w2)
          (after_launch-Kept F cmp env 2 20 d.t' w3) in
      let day_told : Told w4.profils pid =
        Told-after_launch F cmp env 2 20 d.t' pid w3 (end_profil-Told pid w2.profils low) in
      (
        after_stop-Ends F cmp env 1 pid id d.later w2 refl has low,
        after_launch-Launches F cmp env 2 20 d.t' d.left' id' w3 refl (omega arith) day some_left
            (omega arith) still (rw table refl),
        record {
          sized = ap length (kept.table ∙ table);
          in_range = kept.in_range (begun.kept.in_range in_range);
          day_seen = kept.day_seen ∙ begun.kept.day_seen ∙ seen;
          carries = (_, find-after_launch_self F cmp env 2 20 d.t' w3, omega arith);
          all_told = λ i from below. elim (dec_lt i pid) [
            | yes old ↦ inr (kept.told i (morning-Told lo i night w w2 all begun from old))
            | no new ↦ elim (Bool-cases (i == pid)) [
              | inl e ↦ let p : pid ≡ i = ground arith in inr (subst (Told w4.profils) p day_told)
              | inr e ↦ let p : length w3.profils ≡ i = ground arith in inl (ap some p)
            ]
          ];
        },
        omega arith,
      )

  -- The profile of the night after so many days.
  abbrev pub last_night : ℕ → Option ℕ → List DayTimes → Option ℕ
  last_night n night [] = night
  last_night n night (d ∷ ds) = last_night (n + 2) (some (n + 1)) ds

  abbrev pub last_yday : ℤ → List DayTimes → ℤ
  last_yday last [] = last
  last_yday last (d ∷ ds) = last_yday d.yday ds

  run_days :
      (lo : ℕ) (last : ℤ) (night : Option ℕ) (ds : List DayTimes) (w : MainTask F.Val)
      → AreDays last ds
      → lo ≤ length w.profils
      → Between lo last night w
      → (w' : MainTask F.Val) × AreServed night ds w w'
        × Between lo (last_yday last ds) (last_night (length w.profils) night ds) w'
        × (length w'.profils ≡ length w.profils + length ds * 2)
  run_days lo last night [] w days le b = (w, refl, b, omega arith)
  run_days lo last night (d ∷ ds) w (day, days) le b =
      let w0 = day_tick F cmp env d.now w in
      let this : IsDay w.last_day d = subst (λ l. IsDay l d) (sym b.day_seen) day in
      let (planned, in_range, seen) = day_tick-Planned F cmp env d w this b.sized b.in_range in
      let same : length w0.profils ≡ length w.profils =
        ap (λ v. length v.1) (kept-day_tick F cmp env d.now w) in
      let (_, _, _, _, times, times') = day in
      let (w2, passes, begun) =
        morning F cmp env night d w0 times planned
          (Carries-day_tick F cmp env night d.now w b.carries) in
      let (ends, starts, between, more) =
        evening lo night d w0 w2 times' planned in_range seen (omega arith)
          (AllTold-day_tick lo night d.now w b.all_told) begun in
      let w3 = after_stop F cmp env 1 (length w0.profils) w2 in
      let w4 = after_launch F cmp env 2 20 d.t' w3 in
      let pid_eq : length w3.profils ≡ length w.profils + 1 =
        length-end_profil (length w0.profils) w2.profils ∙ begun.one_more ∙ ap (λ n. n + 1) same in
      let len_eq : length w4.profils ≡ length w.profils + 2 = more ∙ ap (λ n. n + 2) same in
      let (w', served, b', count) =
        run_days lo d.yday (some (length w3.profils)) ds w4 days (omega arith) between in
      let night_eq : last_night (length w4.profils) (some (length w3.profils)) ds
          ≡ last_night (length w.profils + 2) (some (length w.profils + 1)) ds =
        ap₂ (λ n p. last_night n (some p) ds) len_eq pid_eq in
      (
        w',
        (w2, w3, w4, passes, ends, starts, served),
        subst (λ night. Between lo (last_yday d.yday ds) night w') night_eq b',
        omega arith,
      )

  last_night-some :
      (n : ℕ) (night : Option ℕ) (d : DayTimes) (ds : List DayTimes)
      → last_night n night (d ∷ ds) ≡ some (n + length ds * 2 + 1)
  last_night-some n night d [] = ap some (omega arith)
  last_night-some n night d (e ∷ ds) =
      last_night-some (n + 2) (some (n + 1)) e ds ∙ ap some (omega arith)

  -- A main task with no profile yet, over one day or more, each of which it sees before 8 h, with a
  -- `time_t` of 64 bits. Every day it makes the plans; the callback of the launch at number 1 launches
  -- a profile, with a timer that stops it set for the time left until 20 h, and the callback of the
  -- profile launched the night before, if there is one, stops that profile, in either order; then the
  -- profile of the day is stopped, and that of the night is launched, with a timer for the time left
  -- until 8 h of the next day. In the end two profiles have been launched for each day, and each is
  -- told to stop and to free itself but the last one, whose number stands in the map of those to
  -- stop. Each launch comes before the end of its plan, and the day of the year is each time another
  -- one. The table of plans has its size, and the launches that wait are those of timers that exist.
  pub day_tick-days :
      (d : DayTimes) (ds : List DayTimes) (w : MainTask F.Val)
      → AreDays w.last_day (d ∷ ds)
      → length w.params.planifs ≡ max_planif_profil
      → InRange w
      → w.profils ≡ []
      → (w' : MainTask F.Val) × AreServed none (d ∷ ds) w w'
        × (length w'.profils ≡ length (d ∷ ds) * 2)
        × ((pid : ℕ) → pid + 1 < length w'.profils → Told w'.profils pid)
        × ((id : ℕ) × (find 2 w'.stops ≡ some id))
  day_tick-days d ds w days n h empty =
      let none_yet : length w.profils ≡ 0 = ap length empty in
      let start : Between 0 w.last_day none w = record {
        sized = n;
        in_range = h;
        day_seen = refl;
        carries = tt;
        all_told = λ pid le low. absurd (omega arith);
      } in
      let (w', served, b, count) = run_days 0 w.last_day none (d ∷ ds) w days (omega arith) start in
      let night = last_night-some (length w.profils) none d ds in
      let (id, has, _) = subst (λ v. Carries F cmp env v w') night b.carries in
      let told : AllTold 0 (some (length w.profils + length ds * 2 + 1)) w' =
        subst (λ v. AllTold 0 v w') night b.all_told in
      (
        w',
        served,
        omega arith,
        λ pid before. elim (told pid (omega arith) (omega arith)) [
          | inl e ↦
              let same : length w.profils + length ds * 2 + 1 ≡ pid = some-injective _ _ e in
              absurd (omega arith)
          | inr t ↦ t
        ],
        (id, has),
      )
