-- ===== src/Timer.antt =====
-- Timer.h and Timer.cpp: `CTimer`. The callback and the object attached are of any type: the classes
-- that use a timer choose it.
pub mod Laws
use gest_aqua.Prelude.{Bool, List, Option, bit_and, eq_ℤ, false, if◌then◌else◌, leb_ℤ, negsuc}
use gest_aqua.Prelude.{none, not, pos, some, true, ℕ, ◌%◌, ◌&&◌, ◌+◌, ◌/◌, ◌==◌, ◌||◌}
use gest_aqua.Thread.{CThread, Next, Os, Round, again, create, leave, select_loop}

-- TIME_ONESHOT and TIME_PERIODIC
abbrev pub time_oneshot : ℕ
time_oneshot = 0

abbrev pub time_periodic : ℕ
time_periodic = 1

abbrev pub micro_sec : ℕ
micro_sec = 1000000

-- `callback` is the function with the object attached, when there is one; `none` is the default
-- `CallbackCTimer`, which does nothing.
pub record CTimer (C : Type 0) : Type 0 where
  pub thread : CThread
  pub tps_usec : ℕ
  pub callback : Option C
  pub attache : Bool
  pub flag : ℕ

-- What the loop of `Thread` does when the time is up, on the number of calls of the callback. A
-- one-shot timer leaves its loop after the first call.
unfoldable pub tick : ℕ → ℕ → ℕ × Next
tick flag calls = (calls + 1, if bit_and flag 1 == time_oneshot then leave else again)

module _ {C : Type 0} where
  -- The constructor, on the thread that `CThread` builds, and `Init`.
  unfoldable pub new_timer : CThread → CTimer C
  new_timer t = record {
    thread = t;
    tps_usec = 0;
    callback = none;
    attache = false;
    flag = time_oneshot;
  }

  unfoldable pub set_callback : C → CTimer C → CTimer C
  set_callback c t = record t { callback = some c }

  unfoldable pub set_duree : ℕ → CTimer C → CTimer C
  set_duree d t = record t { tps_usec = d }

  -- `Start`: nothing is done on a timer whose thread runs, or for no time at all.
  unfoldable pub start : Os → ℕ → ℕ → CTimer C → CTimer C
  unfolding create
  start os usec flag t = if t.thread.started || (usec == 0) then t else record t {
    thread = (create os false t.thread).0;
    tps_usec = usec;
    attache = true;
    flag = flag;
  }

  -- `Stop`: the new timer, and whether the caller waited for its thread.
  unfoldable pub stop : CTimer C → CTimer C × Bool
  stop t =
      if not t.thread.started || (t.thread.arret == 2)
      then (t, false)
      else if leb_ℤ (pos 0) t.thread.pipe_w
      then (
        record t { thread = record (t.thread) { octets = t.thread.octets + 4 }; attache = false },
        not t.thread.auto_delete && not t.thread.detache,
      )
      else (t, false)

  -- `Tv` as the loop sets it.
  unfoldable pub timeval : CTimer C → ℕ × ℕ
  timeval t = (t.tps_usec / micro_sec, t.tps_usec % micro_sec)

  -- `Thread`: the timer when its thread is over, or still runs, and the calls made.
  unfoldable pub thread_timer : List Round → CTimer C → CTimer C × ℕ × Next
  unfolding tick select_loop
  thread_timer rounds t =
      if t.tps_usec == 0
      then (t, 0, leave)
      else let on = record t { thread = record (t.thread) { started = true } } in
        let off = record t { thread = record (t.thread) { started = false } } in
        if eq_ℤ t.thread.pipe_r (negsuc 0)
        then (off, 0, leave)
        else let (calls, next) = select_loop false (tick t.flag) rounds 0 in
          elim next [ again ↦ (on, calls, again) | leave ↦ (off, calls, leave) ]
