-- ===== src/Planner/Timers.antt =====
-- The array of timers: what is built, stopped and appended, as the maps see it.
use gest_aqua.Prelude.{Bool, List, Option, Option-cases, [], arith, get_elem?, inl, inr, length}
use gest_aqua.Prelude.{length-set, none, refl, some, suc, zero, ℕ, ◌<◌, ◌∷◌, ◌≡◌}
use gest_aqua.Planner.{Callback, Machine, armed_timer, stop_timer}
use gest_aqua.Timer.{CTimer, stop}

-- A timer seen through an index: its duration and its callback.
abbrev pub view : Option (CTimer Callback) → Option (ℕ × Option Callback)
view none = none
view (some t) = some (t.tps_usec, t.callback)

pub armed_timer_lem :
    (m : Machine) (c : Callback) (auto : Bool) (usec : ℕ)
    → (armed_timer m c auto usec).callback ≡ some c
unfolding armed_timer
armed_timer_lem m c auto usec = ground arith

pub view-armed_timer :
    (m : Machine) (c : Callback) (auto : Bool) (usec : ℕ)
    → 0 < usec
    → view (some (armed_timer m c auto usec)) ≡ some (usec, some c)
unfolding armed_timer
view-armed_timer m c auto usec h = ground arith

view-stop : (t : CTimer Callback) → view (some (stop t).0) ≡ view (some t)
unfolding stop
view-stop t = ground arith

stop_timer-cons :
    (i : ℕ) (t : CTimer Callback) (ts : List (CTimer Callback))
    → stop_timer (suc i) (t ∷ ts) ≡ t ∷ stop_timer i ts
unfolding stop_timer
stop_timer-cons i t ts = elim (Option-cases (get_elem? ts i)) [
  | inl e ↦ rw (e, stop_timer) refl
  | inr (u, e) ↦ rw (e, stop_timer) refl
]

-- Stopping one timer changes neither the duration nor the callback of any.
pub view-stop_timer :
    (i j : ℕ) (ts : List (CTimer Callback))
    → view (get_elem? (stop_timer i ts) j) ≡ view (get_elem? ts j)
view-stop_timer i j [] = unfold stop_timer in refl
view-stop_timer zero zero (t ∷ ts) = unfold stop_timer in view-stop t
view-stop_timer zero (suc j) (t ∷ ts) = unfold stop_timer in refl
view-stop_timer (suc i) zero (t ∷ ts) = rw (stop_timer-cons i t ts) refl
view-stop_timer (suc i) (suc j) (t ∷ ts) = rw (stop_timer-cons i t ts) (view-stop_timer i j ts)

pub length-stop_timer : (i : ℕ) (ts : List (CTimer Callback)) → length (stop_timer i ts) ≡ length ts
unfolding stop_timer
length-stop_timer i ts = elim (Option-cases (get_elem? ts i)) [
  | inl e ↦ rw (e, stop_timer) refl
  | inr (u, e) ↦ rw (e, stop_timer) (length-set ts i (stop u).0)
]
