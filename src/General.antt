-- ===== src/General.antt =====
-- commun/General.cpp: `tGetOffsetFromMidnight`, and the two times that the main task reads, the day
-- of the year from `gmtime` and the time of day from `localtime`.
pub mod Zones
use gest_aqua.Prelude.{Option, eq_ℤ, if◌then◌else◌, none, pos, some, wrap, ℕ, ℤ, ◌-ℤ◌}
use gest_aqua.Planner.Main.{Now}

-- `struct tm`: its time of day, its `tm_yday`, and all its other fields as one number.
pub record Tm : Type 0 where
  pub tm_hour : ℕ
  pub tm_min : ℕ
  pub tm_sec : ℕ
  pub tm_yday : ℤ
  pub tm_rest : ℤ

-- The functions of the C library, `none` being the null pointer.
pub record Libc : Type 0 where
  pub gmtime : ℤ → Option Tm
  pub localtime : ℤ → Option Tm
  pub mktime : Tm → ℤ

-- `stTmMidnight`
abbrev pub midnight_of : Tm → Tm
midnight_of tm = record tm { tm_hour = 0; tm_min = 0; tm_sec = 0 }

module _ (libc : Libc) (tw : ℕ) where
  -- `tGetOffsetFromMidnight`, with what `time` returns and the argument; a `time_t` has `tw` bits.
  unfoldable pub t_get_offset_from_midnight : ℤ → ℤ → ℤ
  t_get_offset_from_midnight now t_courant =
      elim (libc.localtime (if eq_ℤ t_courant (pos 0) then now else t_courant)) [
        | none ↦ pos 0
        | some tm ↦ wrap tw (libc.mktime tm -ℤ libc.mktime (midnight_of tm))
      ]

  -- What the loop of the main task reads of the clock, when `time` returns `now` both times.
  unfoldable pub now_at : ℤ → Now
  now_at now = record {
    yday = elim (libc.gmtime now) [ none ↦ none | some tm ↦ some tm.tm_yday ];
    offset = t_get_offset_from_midnight now (pos 0);
  }
