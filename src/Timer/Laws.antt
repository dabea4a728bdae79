-- ===== src/Timer/Laws.antt =====
-- How often a timer calls its callback, and what `Start` and `Stop` do to it.
use gest_aqua.Prelude.{List, [], arith, bit_and, eq_ℤ, false, if◌then◌else◌, min, negsuc, true}
use gest_aqua.Prelude.{ℕ, ◌+◌, ◌<◌, ◌==◌, ◌∷◌, ◌≡◌, ◌⊎◌}
use gest_aqua.Thread.{Os, Round, select_loop}
use gest_aqua.Thread.Laws.{live}
use gest_aqua.Timer.{CTimer, start, stop, thread_timer, tick, time_oneshot}

-- The calls of a loop that has already made `calls` of them.
calls-select_loop :
    (flag : ℕ) (rounds : List Round) (calls : ℕ)
    → (select_loop false (tick flag) rounds calls).0
      ≡ calls + (if bit_and flag 1 == time_oneshot then min 1 (live rounds) else live rounds)
unfolding select_loop tick live
calls-select_loop flag [] calls = ground arith
calls-select_loop flag (r ∷ rs) calls =
    ground (arith, calls-select_loop flag rs calls, calls-select_loop flag rs (calls + 1))

-- A timer with a duration and an open pipe calls its callback each time its duration is over before
-- it is stopped if it is periodic, and only the first of those times if it is one-shot.
pub calls-thread_timer :
    {C : Type 0} (t : CTimer C) (rounds : List Round)
    → 0 < t.tps_usec
    → eq_ℤ t.thread.pipe_r (negsuc 0) ≡ false
    → (thread_timer rounds t).1
      ≡ (if bit_and t.flag 1 == time_oneshot then min 1 (live rounds) else live rounds)
unfolding thread_timer
calls-thread_timer t rounds d p = ground (arith, calls-select_loop t.flag rounds 0)

-- A stop that is asked for right after `Start`, before the thread of the timer has run, is lost:
-- the timer is as `Start` left it, armed and with nothing in its pipe.
pub stop-start :
    {C : Type 0} (os : Os) (usec flag : ℕ) (t : CTimer C)
    → t.thread.started ≡ false
    → 0 < usec
    → (stop (start os usec flag t) ≡ (start os usec flag t, false))
      × ((start os usec flag t).tps_usec ≡ usec)
      × ((start os usec flag t).attache ≡ true)
unfolding start stop
stop-start {C} os usec flag t idle d = ground arith

-- `Start` on a timer whose thread runs, or for no time, changes nothing.
pub start_refused :
    {C : Type 0} (os : Os) (usec flag : ℕ) (t : CTimer C)
    → (t.thread.started ≡ true) ⊎ (usec ≡ 0)
    → start os usec flag t ≡ t
unfolding start
start_refused os usec flag t h = ground arith
