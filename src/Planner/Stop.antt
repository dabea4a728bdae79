-- ===== src/Planner/Stop.antt =====
-- The time that a launched profile is given to run, and what ends it.
use gest_aqua.Prelude.{arith, inl, inr, pos, to_u64, wrap, ℕ, ℤ, ◌*ℤ◌, ◌*◌, ◌+◌, ◌-ℤ◌, ◌-◌, ◌<◌}
use gest_aqua.Prelude.{◌^◌, ◌↔◌, ◌≡◌, ◌≤◌, ◌⊎◌}
use gest_aqua.Config.{PlanificationTache, TypeTache}
use gest_aqua.Planner.{remaining_usec}
use gest_aqua.Timer.{micro_sec}

-- The seconds of a plan that are left.
abbrev pub left_of : ℤ → PlanificationTache → ℤ
left_of off p = p.period -ℤ (off -ℤ p.debut)

-- With a `time_t` of 64 bits the timer that stops a launched profile is given the time left of its
-- plan in microseconds, when the plan's times, the time of day and the time left are all from 0 up
-- to 2 ^ 32 seconds.
remaining_usec_wide :
    (off debut period : ℕ) (e : TypeTache) (r : ℤ) (left : ℕ)
    → debut < 2 ^ 32
    → off < 2 ^ 32
    → period < 2 ^ 32
    → off + left ≡ debut + period
    → remaining_usec 64
        (pos off)
        (record { etype = e; debut = pos debut; period = pos period; relance = r })
      ≡ left * 1000000
unfolding remaining_usec ◌-ℤ◌ ◌*ℤ◌
remaining_usec_wide off debut period e r left hd ho hp h = ground arith

narrow_left :
    (off debut period left : ℕ)
    → debut < 2 ^ 31
    → off < 2 ^ 31
    → period < 2 ^ 31
    → left < 2 ^ 31
    → off + left ≡ debut + period
    → wrap 32 (pos period -ℤ wrap 32 (pos off -ℤ pos debut)) ≡ pos left
unfolding ◌-ℤ◌
narrow_left off debut period left hd ho hp hl h = ground arith

narrow_product :
    (left : ℕ) → left ≤ 2147 → to_u64 (wrap 32 (pos left *ℤ pos micro_sec)) ≡ left * 1000000
unfolding ◌*ℤ◌
narrow_product left h = ground arith

-- A value of 32 bits is below 2 ^ 31 or, converted, at least 2 ^ 64 - 2 ^ 31.
narrow_range : (x : ℤ) → (to_u64 (wrap 32 x) < 2 ^ 31) ⊎ (2 ^ 64 - 2 ^ 31 ≤ to_u64 (wrap 32 x))
narrow_range x = ground arith

-- With a `time_t` of 32 bits, as on the board, the timer that stops a launched profile is given the
-- time left of its plan exactly when that is at most 2147 seconds: the plan's times and the time
-- left being from 0 up to 2 ^ 31 seconds. A plan that has 36 minutes or more to run is not given its
-- time.
remaining_usec_narrow :
    (off debut period : ℕ) (e : TypeTache) (r : ℤ) (left : ℕ)
    → debut < 2 ^ 31
    → off < 2 ^ 31
    → period < 2 ^ 31
    → left < 2 ^ 31
    → off + left ≡ debut + period
    → (remaining_usec 32
          (pos off)
          (record { etype = e; debut = pos debut; period = pos period; relance = r })
        ≡ left * 1000000)
      ↔ (left ≤ 2147)
unfolding remaining_usec ◌-ℤ◌ ◌*ℤ◌
remaining_usec_narrow off debut period e r left hd ho hp hl h =
    rw (narrow_left off debut period left hd ho hp hl h) (
      λ e. elim (narrow_range (pos left *ℤ pos micro_sec)) [
        | inl small ↦ omega (arith, small, e)
        | inr big ↦ omega (arith, big, e)
      ],
      narrow_product left,
    )

-- The timer that stops a launched profile is given the time left of its plan in microseconds with a
-- `time_t` of 64 bits; with one of 32 bits, as on the board, exactly when that is at most 2147
-- seconds: a plan that has 36 minutes or more to run is not given its time. The plan's times, the
-- time of day and the time left are from 0 up to 2 ^ 31 seconds.
pub remaining_usec_lem :
    (off debut period : ℕ) (e : TypeTache) (r : ℤ) (left : ℕ)
    → debut < 2 ^ 31
    → off < 2 ^ 31
    → period < 2 ^ 31
    → left < 2 ^ 31
    → off + left ≡ debut + period
    → let p : PlanificationTache = record {
      etype = e;
      debut = pos debut;
      period = pos period;
      relance = r;
    } in
      (remaining_usec 64 (pos off) p ≡ left * 1000000)
      × ((remaining_usec 32 (pos off) p ≡ left * 1000000) ↔ (left ≤ 2147))
remaining_usec_lem off debut period e r left hd ho hp hl h = (
  remaining_usec_wide off debut period e r left (omega arith) (omega arith) (omega arith) h,
  remaining_usec_narrow off debut period e r left hd ho hp hl h,
)
