-- ===== src/Planner/Watched.antt =====
-- The timers that watch the running profiles: what the planning, the launches and the stops do to
-- them.
-- `m_bStarted` of a timer, which its thread sets when it begins.
use gest_aqua.Prelude.{All, All-erase, All-find, All-map, Bool-cases, List, Option-cases, [], ap}
use gest_aqua.Prelude.{arith, erase, find, get_elem?, get_elem?-append, get_elem?-set_ne}
use gest_aqua.Prelude.{get_elem?-set_self, inl, inr, lt-length_of_get_elem?, none, refl, set}
use gest_aqua.Prelude.{some, some-injective, subst, sym, true, ℕ, ◌++◌, ◌==◌, ◌∙◌, ◌∷◌, ◌≡◌, ◌≢◌}
use gest_aqua.Prelude.{◌⊎◌}
use gest_aqua.Planner.{Callback, MainTask, cancel, start_profil, stop_profil, stop_timer}
use gest_aqua.Timer.{CTimer, stop}

abbrev pub begin_timer : ℕ → List (CTimer Callback) → List (CTimer Callback)
begin_timer id ts = elim (get_elem? ts id) [
  | none ↦ ts
  | some t ↦ set ts id (record t { thread = record (t.thread) { started = true } })
]

-- The timer with an index is that of a launch; or it is set, and will stop a profile.
abbrev pub IsLaunch : List (CTimer Callback) → ℕ × ℕ → Type 0
IsLaunch ts e =
    (t : CTimer Callback) × (num : ℕ) × (get_elem? ts e.1 ≡ some t)
    × (t.callback ≡ some (start_profil num))

abbrev pub Watches : List (CTimer Callback) → ℕ → ℕ → ℕ → Type 0
Watches ts id num pid =
    (t : CTimer Callback) × (get_elem? ts id ≡ some t)
    × (t.callback ≡ some (stop_profil num pid))
    × (t.attache ≡ true)

pub IsLaunch-ne :
    (ts : List (CTimer Callback)) (e : ℕ × ℕ) (id num pid : ℕ)
    → IsLaunch ts e
    → Watches ts id num pid
    → e.1 ≢ id
IsLaunch-ne ts e id num pid (t, n, has, c) (u, has', c', on) same =
    let both : t ≡ u = some-injective _ _ (sym has ∙ ap (get_elem? ts) same ∙ has') in
    let bad : start_profil n ≡ stop_profil num pid =
      some-injective _ _ (sym c ∙ ap (λ v. v.callback) both ∙ c') in
    cc

-- A new timer moves none.
pub IsLaunch-append :
    (ts : List (CTimer Callback)) (u : CTimer Callback) (e : ℕ × ℕ)
    → IsLaunch ts e
    → IsLaunch (ts ++ u ∷ []) e
IsLaunch-append ts u e (t, n, has, c) =
    (t, n, get_elem?-append ts (u ∷ []) e.1 (lt-length_of_get_elem? ts e.1 has) ∙ has, c)

pub Watches-append :
    (ts : List (CTimer Callback)) (u : CTimer Callback) (id num pid : ℕ)
    → Watches ts id num pid
    → Watches (ts ++ u ∷ []) id num pid
Watches-append ts u id num pid (t, has, c, on) =
    (t, get_elem?-append ts (u ∷ []) id (lt-length_of_get_elem? ts id has) ∙ has, c, on)

-- A change of one timer that keeps its callback.
module _ (f : CTimer Callback → CTimer Callback) where
  abbrev pub change_at : ℕ → List (CTimer Callback) → List (CTimer Callback)
  change_at id ts = elim (get_elem? ts id) [ none ↦ ts | some t ↦ set ts id (f t) ]

  pub get_elem?-change_at_ne :
      (i j : ℕ) (ts : List (CTimer Callback))
      → i ≢ j
      → get_elem? (change_at i ts) j ≡ get_elem? ts j
  get_elem?-change_at_ne i j ts ne = elim (Option-cases (get_elem? ts i)) [
    | inl e ↦ rw (e, change_at) refl
    | inr (t, e) ↦ rw (e, change_at) (get_elem?-set_ne ts (f t) ne)
  ]

  pub get_elem?-change_at_self :
      (i : ℕ) (ts : List (CTimer Callback)) (t : CTimer Callback)
      → get_elem? ts i ≡ some t
      → get_elem? (change_at i ts) i ≡ some (f t)
  get_elem?-change_at_self i ts t e =
      rw (e, change_at) (get_elem?-set_self ts i (f t) (lt-length_of_get_elem? ts i e))

  pub IsLaunch-change_at :
      (i : ℕ) (ts : List (CTimer Callback)) (e : ℕ × ℕ)
      → ((t : CTimer Callback) → (f t).callback ≡ t.callback)
      → IsLaunch ts e
      → IsLaunch (change_at i ts) e
  IsLaunch-change_at i ts e same (t, n, has, c) = elim (Bool-cases (i == e.1)) [
    | inl eq ↦
        let p : i ≡ e.1 = ground arith in
        let has' : get_elem? ts i ≡ some t = ap (get_elem? ts) p ∙ has in
        (
          f t,
          n,
          ap (get_elem? (change_at i ts)) (sym p) ∙ get_elem?-change_at_self i ts t has',
          same t ∙ c,
        )
    | inr ne ↦ let p : i ≢ e.1 = ground arith in (t, n, get_elem?-change_at_ne i e.1 ts p ∙ has, c)
  ]

  pub Watches-change_at_ne :
      (i : ℕ) (ts : List (CTimer Callback)) (id num pid : ℕ)
      → i ≢ id
      → Watches ts id num pid
      → Watches (change_at i ts) id num pid
  Watches-change_at_ne i ts id num pid ne (t, has, c, on) =
      (t, get_elem?-change_at_ne i id ts ne ∙ has, c, on)

  pub Watches-change_at :
      (i : ℕ) (ts : List (CTimer Callback)) (id num pid : ℕ)
      → ((t : CTimer Callback) → ((f t).callback ≡ t.callback) × ((f t).attache ≡ t.attache))
      → Watches ts id num pid
      → Watches (change_at i ts) id num pid
  Watches-change_at i ts id num pid same (t, has, c, on) = elim (Bool-cases (i == id)) [
    | inl eq ↦
        let p : i ≡ id = ground arith in
        let has' : get_elem? ts i ≡ some t = ap (get_elem? ts) p ∙ has in
        (
          f t,
          ap (get_elem? (change_at i ts)) (sym p) ∙ get_elem?-change_at_self i ts t has',
          (same t).0 ∙ c,
          (same t).1 ∙ on,
        )
    | inr ne ↦
        let p : i ≢ id = ground arith in Watches-change_at_ne i ts id num pid p (t, has, c, on)
  ]

callback-stop : (t : CTimer Callback) → (stop t).0.callback ≡ t.callback
unfolding stop
callback-stop t = ground arith

module _ {D : Type 0} where
  -- What waits is a launch, and each running profile has its timer.
  abbrev pub AllLaunches : MainTask D → Type 0
  AllLaunches w = All (IsLaunch w.timers) w.lanceur

  abbrev pub AllWatched : MainTask D → List (ℕ × ℕ) → Type 0
  AllWatched w run =
      (num pid : ℕ)
      → find num run ≡ some pid
      → (id : ℕ) × (find num w.stops ≡ some id) × Watches w.timers id num pid

  abbrev pub IsGood : MainTask D → List (ℕ × ℕ) → Type 0
  IsGood w run = AllLaunches w × AllWatched w run

  cancel_cases :
      (num : ℕ) (w : MainTask D)
      → (cancel num w ≡ w)
        ⊎ (id : ℕ) × (find num w.lanceur ≡ some id)
          × (cancel num w ≡ record w {
            timers = change_at (λ t. (stop t).0) id w.timers;
            lanceur = erase num w.lanceur;
          })
  unfolding cancel stop_timer
  cancel_cases num w = elim (Option-cases (find num w.lanceur)) [
    | inl e ↦ inl (rw (e, cancel) refl)
    | inr (id, e) ↦ inr (id, e, rw (e, cancel) refl)
  ]

  pub cancel-IsGood :
      (num : ℕ) (w : MainTask D) (run : List (ℕ × ℕ)) → IsGood w run → IsGood (cancel num w) run
  cancel-IsGood num w run (launches, watched) = elim (cancel_cases num w) [
    | inl same ↦ subst (λ v. IsGood v run) (sym same) (launches, watched)
    | inr (id, found, same) ↦
        let f = λ (t : CTimer Callback). (stop t).0 in
        let is_launch = All-find (IsLaunch w.timers) num w.lanceur id launches found in
        let w' = record w { timers = change_at f id w.timers; lanceur = erase num w.lanceur } in
        let good : IsGood w' run = (
          All-erase (IsLaunch (change_at f id w.timers)) num w.lanceur (
              All-map (IsLaunch w.timers) (IsLaunch (change_at f id w.timers)) w.lanceur
                (λ e h. IsLaunch-change_at f id w.timers e callback-stop h) launches),
          λ n p e.
              let (sid, has, watches) = watched n p e in
              let apart = IsLaunch-ne w.timers (num, id) sid n p is_launch watches in
              (sid, has, Watches-change_at_ne f id w.timers sid n p apart watches),
        ) in
        subst (λ v. IsGood v run) (sym same) good
  ]
