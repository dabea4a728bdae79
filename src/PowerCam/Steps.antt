-- ===== src/PowerCam/Steps.antt =====
-- dlgi2c.c: the life of the driver as the steps of its interrupts, works, timers and calls, in any
-- order.
use gest_aqua.Prelude.{Bool, List, arith, if◌then◌else◌, none, pos, some, subst, true, ℕ, ℤ}
use gest_aqua.Prelude.{◌==◌, ◌≡◌, ◌≢◌, ◌≤◌}
use gest_aqua.PowerCam.{I2c, Kernel, PowerCam}
use gest_aqua.PowerCam.Attached.{IsFresh}
use gest_aqua.PowerCam.Calls.{KeepsSound, ioctl-IsSound}
use gest_aqua.PowerCam.Device.{open_file, poll, release_file}
use gest_aqua.PowerCam.Ioctl.{Ioctl, ioctl}
use gest_aqua.PowerCam.Ring.{enqueue, take_data}
use gest_aqua.PowerCam.Rings.{IsSound, advance_range, enqueue-IsSound, fct_etat_bouton_g-IsSound}
use gest_aqua.PowerCam.Rings.{interrupt_task-IsSound, take_data-IsSound, trame_vie_task-IsSound}
use gest_aqua.PowerCam.Tasks.{fct_etat_bouton_g, fct_timer_trame_vie, i2c_irq, interrupt_task}
use gest_aqua.PowerCam.Tasks.{irq_gpio1_2, trame_vie_task}

module _ {S : Type 0} (i2c : I2c S) (k : Kernel) where
  -- A work runs when it is queued, and a timer goes off when it is pending. A call is one step, after
  -- the wait of a reading.
  pub data Step : PowerCam S → PowerCam S → Type 0 where
    irq_step : (c : PowerCam S) → c.irq_carte ≡ true → Step c (i2c_irq i2c k c)
    work_step :
        (garbage : ℕ) (c : PowerCam S) → c.int_task ≡ true → Step c (interrupt_task i2c k garbage c)
    vie_timer_step :
        (t : ℕ) (c : PowerCam S) → c.timer_trame_vie ≡ some t → Step c (fct_timer_trame_vie i2c k c)
    vie_step :
        (jiffies : ℕ) (c : PowerCam S) → c.vie_task ≡ true → Step c (trame_vie_task i2c k jiffies c)
    bouton_irq_step :
        (jiffies : ℕ) (c : PowerCam S) → c.irq_bouton ≡ true → Step c (irq_gpio1_2 i2c k jiffies c)
    bouton_timer_step :
        (jiffies reg t : ℕ) (c : PowerCam S)
        → c.timer_bouton ≡ some t
        → Step c (fct_etat_bouton_g i2c k jiffies reg c)
    open_step : (c : PowerCam S) → Step c (open_file c).0
    release_step : (c : PowerCam S) → Step c (release_file c).0
    read_step :
        (fault : Bool) (nbytes : ℕ) (c c' : PowerCam S) (ret : ℤ) (out : List ℕ)
        → take_data k fault nbytes c ≡ some (c', ret, out)
        → Step c c'
    write_step : (bytes : List ℕ) (c : PowerCam S) → Step c (enqueue k bytes c).0
    ioctl_step :
        (file : Bool) (jiffies g : ℕ) (cmd : Ioctl) (c c' : PowerCam S) (ret : ℤ) (out : List ℕ)
        → ioctl i2c k file jiffies g cmd c ≡ some (c', ret, out)
        → Step c c'

  pub data Reach (c : PowerCam S) : PowerCam S → Type 0 where
    here : Reach c c
    then_step : {d e : PowerCam S} → Reach c d → Step d e → Reach c e

  Step-IsSound : {c d : PowerCam S} → Step c d → IsSound c → IsSound d
  unfolding i2c_irq fct_timer_trame_vie irq_gpio1_2 open_file release_file
  Step-IsSound (irq_step c on) h = h
  Step-IsSound (work_step garbage c on) h = interrupt_task-IsSound i2c k garbage c h
  Step-IsSound (vie_timer_step t c on) h = h
  Step-IsSound (vie_step jiffies c on) h = trame_vie_task-IsSound i2c k jiffies c h
  Step-IsSound (bouton_irq_step jiffies c on) h = h
  Step-IsSound (bouton_timer_step jiffies reg t c on) h =
      fct_etat_bouton_g-IsSound i2c k jiffies reg c h
  Step-IsSound (open_step c) h = ground arith
  Step-IsSound (release_step c) h = ground arith
  Step-IsSound (read_step fault nbytes c c' ret out e) h =
      take_data-IsSound i2c k fault nbytes c c' ret out h e
  Step-IsSound (write_step bytes c) h = enqueue-IsSound i2c k bytes c h
  Step-IsSound (ioctl_step file jiffies g cmd c c' ret out e) h =
      subst (KeepsSound i2c k) e (ioctl-IsSound i2c k file jiffies g cmd c h)

  Reach-IsSound : {c d : PowerCam S} → IsSound c → Reach c d → IsSound d
  Reach-IsSound h here = h
  Reach-IsSound h (then_step r s) = Step-IsSound s (Reach-IsSound h r)

  fresh-IsSound : (c : PowerCam S) → IsFresh i2c c → IsSound c
  fresh-IsSound c f = ground arith

  take_data_fits :
      (fault : Bool) (nbytes : ℕ) (c : PowerCam S)
      → IsSound c
      → nbytes ≤ 2
      → take_data k fault nbytes c ≢ none
  unfolding take_data
  take_data_fits fault nbytes c h few = let range = advance_range k c.bufr1 h.1 in ground arith

  -- In every state that the interrupts, the works, the timers and the calls of the driver, in any
  -- order, make of a board just attached, the indices of both rings are those of rows or the 255 of
  -- the attachment, and `poll` says that something waits exactly when the two indices of the ring of
  -- events differ; and a reading of at most two bytes, the size of an event, stays in the array.
  pub Reach-take_data :
      {c d : PowerCam S} (fault : Bool) (nbytes : ℕ)
      → IsFresh i2c c
      → Reach c d
      → nbytes ≤ 2
      → IsSound d
        × (poll true d ≡ (if d.bufr0 == d.bufr1 then pos 0 else pos 65))
        × (take_data k fault nbytes d ≢ none)
  unfolding poll
  Reach-take_data {c} {d} fault nbytes fresh reach few =
      let h = Reach-IsSound (fresh-IsSound c fresh) reach in
      (h, rw h.2 (ground arith), take_data_fits fault nbytes d h few)
