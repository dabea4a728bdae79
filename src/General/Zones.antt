-- ===== src/General/Zones.antt =====
-- The planning of a day where the local time is not that of Greenwich.
use gest_aqua.Prelude.{ap, arith, eq_of_parts, eq_ℤ, false, if◌then◌else◌, inl, inr, int_laws}
use gest_aqua.Prelude.{length, ltb, pos, refl, some, wrap, ℕ, ℤ, ◌%◌, ◌*◌, ◌+ℤ◌, ◌+◌, ◌-ℤ◌, ◌-◌}
use gest_aqua.Prelude.{◌<◌, ◌∙◌, ◌≡◌, ◌⊎◌}
use gest_aqua.Config.{max_planif_profil}
use gest_aqua.Config.Init.{Memcmp}
use gest_aqua.Double.{Double}
use gest_aqua.General.{Libc, Tm, midnight_of, now_at, t_get_offset_from_midnight}
use gest_aqua.Planner.{Env, MainTask, start_profil}
use gest_aqua.Planner.Daily.{day_tick_lem}
use gest_aqua.Planner.Main.{day_tick}
use gest_aqua.Planner.Plan.{InRange, armed}

-- The seconds of a time of day.
abbrev pub seconds_of : Tm → ℕ
seconds_of tm = tm.tm_hour * 3600 + tm.tm_min * 60 + tm.tm_sec

-- A time of day, on a day whose times `mktime` counts second by second from some `base`.
abbrev pub IsTimeOfDay : Libc → Tm → Type 0
IsTimeOfDay libc tm =
    (tm.tm_hour < 24)
    × (tm.tm_min < 60)
    × (tm.tm_sec < 60)
    × (base : ℤ) × ((h m s : ℕ)
        → h < 24
        → m < 60
        → s < 60
        → libc.mktime (record tm { tm_hour = h; tm_min = m; tm_sec = s })
          ≡ base +ℤ pos (h * 3600 + m * 60 + s))

add_sub : (a : ℤ) (n : ℕ) → (a +ℤ pos n) -ℤ (a +ℤ pos 0) ≡ pos n
add_sub a n = eq_of_parts ((a +ℤ pos n) -ℤ (a +ℤ pos 0)) (pos n) (omega int_laws)

wrap_small : (tw n : ℕ) → (tw ≡ 32) ⊎ (tw ≡ 64) → n < 86400 → wrap tw (pos n) ≡ pos n
wrap_small tw n (inl e) h = rw e (ground arith)
wrap_small tw n (inr e) h = rw e (ground arith)

module _ (libc : Libc) (tw : ℕ) where
  t_get_offset_from_midnight_lem :
      (now : ℤ) (tm : Tm)
      → (tw ≡ 32) ⊎ (tw ≡ 64)
      → libc.localtime now ≡ some tm
      → IsTimeOfDay libc tm
      → t_get_offset_from_midnight libc tw now (pos 0) ≡ pos (seconds_of tm)
  unfolding t_get_offset_from_midnight
  t_get_offset_from_midnight_lem now tm w e (h, m, s, base, count) =
      let small : seconds_of tm < 86400 = omega arith in
      let here : libc.mktime tm ≡ base +ℤ pos (seconds_of tm) =
        count tm.tm_hour tm.tm_min tm.tm_sec h m s in
      let midnight : libc.mktime (midnight_of tm) ≡ base +ℤ pos 0 =
        count 0 0 0 (omega arith) (omega arith) (omega arith) in
      rw (e, t_get_offset_from_midnight, here, midnight, add_sub base (seconds_of tm))
        (wrap_small tw (seconds_of tm) w small)

-- The clock of a place whose time of day is `z` seconds, from 0 up to a day, ahead of that of
-- Greenwich, at a second: the day there is known, and so is the time of day here.
abbrev pub IsZone : ℕ → Libc → ℕ → Tm → Tm → Type 0
IsZone z libc t utc here =
    (libc.gmtime (pos t) ≡ some utc)
    × (libc.localtime (pos t) ≡ some here)
    × (seconds_of here ≡ (t + z) % 86400)
    × IsTimeOfDay libc here

module _ (F : Double) (cmp : Memcmp F.Val) (env : Env F.Val) (libc : Libc) where
  -- The main task sees a day begin at midnight of Greenwich, and plans it with the local time. In a
  -- place that is `z` seconds ahead, from 0 up to a day, the launch of the built-in plan of 8 h then
  -- waits for 8 h when `z` is less than 8 hours, comes at once when it is from 8 to 20 hours, and is
  -- what it was when it is 20 hours or more, that is, up to 4 hours behind Greenwich; the launch of
  -- the plan of 20 h waits for 20 h in the first two cases and comes at once in the last. On the
  -- local day `mktime` counts the times from 0:00:00 to 23:59:59 second by second, as on a day
  -- without a change of offset. The table of plans has its size, the launches that wait are those of
  -- timers that exist, and `time_t` has 32 or 64 bits.
  pub day_tick-now_at :
      (tw t z : ℕ) (utc here : Tm) (w : MainTask F.Val)
      → (tw ≡ 32) ⊎ (tw ≡ 64)
      → IsZone z libc t utc here
      → t % 86400 ≡ 0
      → z < 86400
      → eq_ℤ utc.tm_yday w.last_day ≡ false
      → length w.params.planifs ≡ max_planif_profil
      → InRange w
      → let w' = day_tick F cmp env (now_at libc tw (pos t)) w in
        (armed w' 1 ≡ (
          if ltb z 28800
          then some ((28800 - z) * 1000000, some (start_profil 1))
          else if ltb z 72000
          then some (100, some (start_profil 1))
          else armed w 1))
        × (armed w' 2 ≡ (
            if ltb z 72000
            then some ((72000 - z) * 1000000, some (start_profil 2))
            else some (100, some (start_profil 2))))
  unfolding now_at
  day_tick-now_at tw t z utc here w width (there, local, clock, tod) first small new n h =
      let off : t_get_offset_from_midnight libc tw (pos t) (pos 0) ≡ pos z =
        t_get_offset_from_midnight_lem libc tw (pos t) here width local tod
        ∙ ap pos (clock ∙ omega arith) in
      let plans =
        day_tick_lem F cmp env (now_at libc tw (pos t)) utc.tm_yday z w (rw there refl) new off
          small n h in
      (plans.0, plans.1)
