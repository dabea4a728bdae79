-- ===== src/Planner/Told.antt =====
-- `SetAutoDelete (1)` and `SetArretThread (1)` on a profile, and the profiles that had both.
use gest_aqua.Prelude.{Bool-cases, List, Option-cases, arith, get_elem?, get_elem?-set_ne, inl}
use gest_aqua.Prelude.{inr, length, lt-length_of_get_elem?, refl, some, subst, sym, true, ℕ, ◌<◌}
use gest_aqua.Prelude.{◌==◌, ◌∙◌, ◌≡◌, ◌≢◌}
use gest_aqua.Planner.{end_profil}
use gest_aqua.Planner.Launch.{finished, finished_lem}
use gest_aqua.Planner.Running.{get_elem?-end_profil_self, get_elem?_found}
use gest_aqua.Profil.{Profil}

module _ {D : Type 0} where
  -- A profile that is told to stop and to free itself.
  abbrev pub Told : List (Profil D) → ℕ → Type 0
  Told ps pid =
      (p : Profil D) × (get_elem? ps pid ≡ some p)
      × (p.thread.arret ≡ 1)
      × (p.thread.auto_delete ≡ true)

  pub end_profil-Told :
      (pid : ℕ) (ps : List (Profil D)) → pid < length ps → Told (end_profil pid ps) pid
  end_profil-Told pid ps h =
      let (q, has) = get_elem?_found ps pid h in
      (finished q, get_elem?-end_profil_self pid ps q has, (finished_lem q).0, (finished_lem q).1)

  pub get_elem?-end_profil_ne :
      (i j : ℕ) (ps : List (Profil D)) → i ≢ j → get_elem? (end_profil i ps) j ≡ get_elem? ps j
  unfolding end_profil
  get_elem?-end_profil_ne i j ps ne = elim (Option-cases (get_elem? ps i)) [
    | inl e ↦ rw (end_profil, e) refl
    | inr (q, e) ↦ rw (end_profil, e) (get_elem?-set_ne ps (finished q) ne)
  ]

  pub Told-end_profil :
      (i pid : ℕ) (ps : List (Profil D)) → Told ps pid → Told (end_profil i ps) pid
  Told-end_profil i pid ps (p, has, told, freed) = elim (Bool-cases (i == pid)) [
    | inl e ↦
        let same : i ≡ pid = ground arith in
        let low : pid < length ps = lt-length_of_get_elem? ps pid has in
        subst (λ j. Told (end_profil j ps) pid) (sym same) (end_profil-Told pid ps low)
    | inr e ↦
        let ne : i ≢ pid = ground arith in
        (p, get_elem?-end_profil_ne i pid ps ne ∙ has, told, freed)
  ]
