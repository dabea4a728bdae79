-- ===== src/Sequencer.antt =====
-- SequenceurTache.h and SequenceurTache.cpp: the older task that sees the days begin. Its two profiles
-- are of classes that are not in the repository, and none of its functions touches them.
use gest_aqua.Prelude.{Bool-cases, List, Option, [], arith, eq_of_parts, eq_ℤ, false}
use gest_aqua.Prelude.{if◌then◌else◌, inl, inr, negsuc, none, pos, refl, some, wrap, ℕ, ℤ, ◌<◌}
use gest_aqua.Prelude.{◌^◌, ◌∷◌, ◌≡◌}
use gest_aqua.Thread.{CThread, Next, Round, again, leave, select_loop}
use gest_aqua.Timer.{CTimer}

pub record Sequencer : Type 0 where
  pub thread : CThread
  pub last_day : ℤ
  pub lanceurs : List (CTimer Unit)

-- The constructor, on the thread that its base builds.
unfoldable pub new_sequencer : CThread → Sequencer
new_sequencer thread = record { thread = thread; last_day = negsuc 0; lanceurs = [] }

-- `fctStartProfilJour`
unfoldable pub fct_start_profil_jour : Option Sequencer → Option Sequencer
fct_start_profil_jour s = s

-- `iInitTimerLanceTache`: what it would do is left out by `#if 0`.
unfoldable pub i_init_timer_lance_tache : ℤ → Sequencer → Sequencer × ℤ
i_init_timer_lance_tache courant s = (s, pos 0)

-- What the loop does when its second is up, with what `time` and `gmtime` give.
unfoldable pub sequencer_tick : ℤ × Option ℤ → Sequencer → Sequencer
unfolding i_init_timer_lance_tache
sequencer_tick (courant, yday) s = elim yday [
  | none ↦ s
  | some day ↦
      if eq_ℤ day s.last_day
      then s
      else (i_init_timer_lance_tache courant (record s { last_day = wrap 16 day })).0
]

-- The same on the clock's values to come.
unfoldable pub next_second :
    Sequencer × List (ℤ × Option ℤ) → (Sequencer × List (ℤ × Option ℤ)) × Next
unfolding sequencer_tick
next_second (s, []) = ((s, []), again)
next_second (s, now ∷ nows) = ((sequencer_tick now s, nows), again)

-- `Thread`: the task and whether it still runs.
unfoldable pub thread_sequencer : List Round → List (ℤ × Option ℤ) → Sequencer → Sequencer × Next
unfolding next_second select_loop
thread_sequencer rounds nows s =
    if eq_ℤ s.thread.pipe_r (negsuc 0)
    then (s, leave)
    else let ((s', rest), next) = select_loop false next_second rounds (s, nows) in (s', next)

-- A second that gives a day leaves it as the last one, and nothing else changes.
sequencer_tick-day :
    (courant : ℤ) (day : ℕ) (s : Sequencer)
    → day < 2 ^ 15
    → sequencer_tick (courant, some (pos day)) s ≡ record s { last_day = pos day }
unfolding sequencer_tick i_init_timer_lance_tache
sequencer_tick-day courant day s h = elim (Bool-cases (eq_ℤ (pos day) s.last_day)) [
  | inl e ↦
      let same : s.last_day ≡ pos day = eq_of_parts s.last_day (pos day) (ground arith) in
      rw e (λ i. record s { last_day = same i })
  | inr e ↦ let kept : wrap 16 (pos day) ≡ pos day = ground arith in rw (e, kept) refl
]
