-- ===== src/Planner/Moves.antt =====
-- What a launch and the end of a profile keep of the main task.
use gest_aqua.Prelude.{All-erase, All-map, arith, erase, false, find, find-assign}
use gest_aqua.Prelude.{get_elem?-append, length, length-append, lt-length_of_get_elem?, refl}
use gest_aqua.Prelude.{some, ℕ, ◌<◌, ◌==◌, ◌∙◌, ◌≡◌}
use gest_aqua.Config.Init.{Memcmp}
use gest_aqua.Double.{Double}
use gest_aqua.Planner.{Env, MainTask, launch}
use gest_aqua.Planner.Plan.{InRange}
use gest_aqua.Planner.Served.{after_launch, after_stop}
use gest_aqua.Planner.Told.{Told, Told-end_profil}

module _ (F : Double) (cmp : Memcmp F.Val) (env : Env F.Val) where
  -- What the launches, the stops and the seconds of a day keep.
  pub record Kept (w w' : MainTask F.Val) : Type 0 where
    pub table : w'.params.planifs ≡ w.params.planifs
    pub day_seen : w'.last_day ≡ w.last_day
    pub in_range : InRange w → InRange w'
    pub told : (pid : ℕ) → Told w.profils pid → Told w'.profils pid

  pub Kept-trans : (u v w : MainTask F.Val) → Kept u v → Kept v w → Kept u w
  Kept-trans u v w k l = record {
    table = l.table ∙ k.table;
    day_seen = l.day_seen ∙ k.day_seen;
    in_range = λ h. l.in_range (k.in_range h);
    told = λ pid h. l.told pid (k.told pid h);
  }

  InRange-after_launch :
      (num hour t : ℕ) (w : MainTask F.Val)
      → InRange w
      → InRange (after_launch F cmp env num hour t w)
  unfolding launch
  InRange-after_launch num hour t w h =
      let longer : length w.timers < length (after_launch F cmp env num hour t w).timers =
        omega (arith, length-append w.timers _) in
      All-map (λ (e : ℕ × ℕ). e.1 < length w.timers)
        (λ (e : ℕ × ℕ). e.1 < length (after_launch F cmp env num hour t w).timers)
        (erase num w.lanceur) (λ e low. omega arith)
        (All-erase (λ (e : ℕ × ℕ). e.1 < length w.timers) num w.lanceur h)

  pub Told-after_launch :
      (num hour t pid : ℕ) (w : MainTask F.Val)
      → Told w.profils pid
      → Told (after_launch F cmp env num hour t w).profils pid
  unfolding launch
  Told-after_launch num hour t pid w (p, has, told, freed) = (
    p,
    get_elem?-append w.profils _ pid (lt-length_of_get_elem? w.profils pid has) ∙ has,
    told,
    freed,
  )

  pub after_launch-Kept :
      (num hour t : ℕ) (w : MainTask F.Val) → Kept w (after_launch F cmp env num hour t w)
  unfolding launch
  after_launch-Kept num hour t w = record {
    table = refl;
    day_seen = refl;
    in_range = λ h. InRange-after_launch num hour t w h;
    told = λ pid h. Told-after_launch num hour t pid w h;
  }

  pub after_stop-Kept : (num pid : ℕ) (w : MainTask F.Val) → Kept w (after_stop F cmp env num pid w)
  after_stop-Kept num pid w = record {
    table = refl;
    day_seen = refl;
    in_range = λ h. h;
    told = λ i h. Told-end_profil pid i w.profils h;
  }

  pub lanceur-after_launch :
      (num hour t : ℕ) (w : MainTask F.Val)
      → (after_launch F cmp env num hour t w).lanceur ≡ erase num w.lanceur
  unfolding launch
  lanceur-after_launch num hour t w = refl

  pub find-after_launch_self :
      (num hour t : ℕ) (w : MainTask F.Val)
      → find num (after_launch F cmp env num hour t w).stops ≡ some (length w.timers)
  unfolding launch
  find-after_launch_self num hour t w = ground arith

  pub find-after_launch_ne :
      (num hour t j : ℕ) (w : MainTask F.Val)
      → (num == j) ≡ false
      → find j (after_launch F cmp env num hour t w).stops ≡ find j w.stops
  unfolding launch
  find-after_launch_ne num hour t j w ne = find-assign num j (length w.timers) w.stops ∙ rw ne refl
