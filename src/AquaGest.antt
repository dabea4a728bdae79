-- ===== src/AquaGest.antt =====
-- AquaGest.cpp: the program's `main`.
pub mod Run
use gest_aqua.Prelude.{Bool, List, Option, eq_ℤ, if◌then◌else◌, pos, some, true}
use gest_aqua.Config.{ParametreAppli}
use gest_aqua.Config.Init.{Memcmp}
use gest_aqua.Double.{Double}
use gest_aqua.Gpio.{Gpio, gpio_map}
use gest_aqua.Planner.{Env, MainTask, new_main_task}
use gest_aqua.Planner.Main.{Now, thread_main}
use gest_aqua.Thread.{CThread, Next, Os, Round, create, fct_thread, leave, set_arret}

-- What the program leaves: the registers, whether `main` has waited for the thread of the main task,
-- the task, and whether its thread still runs; the task is as at its end.
pub record Program (D : Type 0) : Type 0 where
  pub gpio : Gpio
  pub waited : Bool
  pub task : Option (MainTask D)
  pub still : Next

module _ (F : Double) (cmp : Memcmp F.Val) (env : Env F.Val) where
  open F use {Val}

  -- `main`, with the thread and the parameters that the parts of `CMainTask` build; a thread that
  -- cannot be created does not run.
  unfoldable pub main :
      Os
      → (mmap_ok : Bool) → CThread
      → ParametreAppli Val
      → List Round
      → List Now
      → Gpio
      → Program Val
  main os mmap_ok thread params rounds nows g =
      let gpio = (gpio_map mmap_ok g).0 in
      let w = new_main_task thread params in
      let (created, ret, waits) = create os true w.thread in
      let w1 = record w { thread = created } in
      if eq_ℤ ret (pos 1)
      then record {
        gpio = gpio;
        waited = waits;
        task =
            fct_thread (λ w. w.thread) (λ t w. record w { thread = t })
              (λ w. (thread_main F cmp env rounds nows w).0) w1;
        still = (thread_main F cmp env rounds nows (record w1 { thread = set_arret 0 created })).1;
      }
      else record { gpio = gpio; waited = waits; task = some w1; still = leave }
