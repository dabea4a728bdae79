-- ===== src/PowerCam/Tasks.antt =====
-- dlgi2c.c: the works of the driver, its interrupts and its timers. A work holds the semaphore
-- `Monlock` while it runs, and is one step of the model.
use gest_aqua.Prelude.{Option, [], bit_and, drop, eq_ℤ, false, get_or, if◌then◌else◌, leb, leb_ℤ}
use gest_aqua.Prelude.{ltb, ltb_ℤ, negsuc, none, not, pattern_of, pos, set, some, suc, take}
use gest_aqua.Prelude.{true, u32, u8, zero, ℕ, ℤ, ◌&&◌, ◌+◌, ◌-◌, ◌/◌, ◌==◌, ◌^◌, ◌∷◌}
use gest_aqua.PowerCam.{I2c, Kernel, PowerCam, alarme_hard, bouton_g_face_avant, cmd_read}
use gest_aqua.PowerCam.{cmd_w_trame_vie, i2c_read, i2c_write, pb_trame_vie, set_int_code}
use gest_aqua.PowerCam.{to_char}
use gest_aqua.PowerCam.Bus.{clear_int, receive, send, write_i2c}
use gest_aqua.PowerCam.Ring.{advance, data_in}

module _ {S : Type 0} (i2c : I2c S) (k : Kernel) where
  -- The count of the life frames in a row whose answer says that the interrupt line is low.
  unfoldable pub watch_line : ℕ → PowerCam S → PowerCam S
  unfolding clear_int
  watch_line received c =
      if bit_and received 128 == 0
      then if c.nb_int_zero == 0
        then record c { old_cpt_clear = c.cpt_clear; nb_int_zero = 1 }
        else if c.cpt_clear == c.old_cpt_clear
        then (let n = u8 (c.nb_int_zero + 1) in
            if leb 10 n
            then record (clear_int i2c 0 (record c { nb_int_zero = n })) { nb_int_zero = 0 }
            else record c { nb_int_zero = n })
        else record c { nb_int_zero = 0 }
      else record c { nb_int_zero = 0 }

  -- The life value after a right answer.
  unfoldable pub next_valeur : ℕ → ℕ
  next_valeur v = let v' = u8 (v + 1) in if leb 128 v' then 0 else v'

  -- The body of the loop of `I2c_TrameVie_task`: the state, and what `err` is set to, if it is.
  unfoldable pub life_attempt : PowerCam S → PowerCam S × Option ℤ
  unfolding send receive watch_line next_valeur
  life_attempt c =
      let (c1, sent) = send i2c cmd_w_trame_vie 0 c.valeur_trame_vie c in
      if leb_ℤ (pos 0) sent
      then (let (c2, got, answer) = receive i2c (cmd_read 60) (0 ∷ []) c1 in
          let received = get_or answer 0 0 in
          if leb_ℤ (pos 0) got
          then if bit_and c2.valeur_trame_vie 127 == bit_and (255 - received) 127
            then (
              watch_line received
                  (record c2 { valeur_trame_vie = next_valeur c2.valeur_trame_vie }),
              none,
            )
            else (c2, some (negsuc 0))
          else (c2, some (negsuc 1)))
      else (c1, some (negsuc 2))

  -- `err`, a `char`, after an attempt.
  unfoldable pub new_err : ℤ → Option ℤ → ℤ
  new_err err none = err
  new_err err (some e) = to_char k e

  -- The loop on `ucCpt`, with `err`, which no attempt sets back to 0.
  unfoldable pub life_tries : ℕ → ℤ → PowerCam S → PowerCam S × ℤ
  unfolding new_err
  life_tries zero err c = (c, err)
  life_tries (suc cpt) err c =
      let (c', set) = life_attempt c in
      let err' = new_err err set in
      let rest = life_tries cpt err' c' in
      if not (eq_ℤ err' (pos 0)) && ltb 0 cpt then rest else (c', err')

  -- `I2c_TrameVie_task`
  unfoldable pub trame_vie_task : ℕ → PowerCam S → PowerCam S
  trame_vie_task jiffies c =
      let (c1, err) = life_tries 3 (pos 0) (record c { vie_task = false }) in
      let c2 = if ltb_ℤ err (pos 0) then (data_in k true alarme_hard pb_trame_vie c1).0 else c1 in
      record c2 { timer_trame_vie = some (u32 (jiffies + k.hz)) }

  -- `fctTimerTrameVie`, with the timer gone off.
  unfoldable pub fct_timer_trame_vie : PowerCam S → PowerCam S
  fct_timer_trame_vie c = record c { timer_trame_vie = none; vie_task = true }

  -- The loop that reads the status of the interrupts: the last value of `ucRetReadStatus`, an
  -- `unsigned char`, and the status, whose first value is what the stack holds.
  unfoldable pub status_tries : ℕ → ℕ → PowerCam S → PowerCam S × ℕ × ℕ
  unfolding receive
  status_tries zero status c = (c, 0, status)
  status_tries (suc cpt) status c =
      let (c', ret, answer) = receive i2c (cmd_read 2) (status ∷ []) c in
      let status' = get_or answer 0 0 in
      let rest = status_tries cpt status' c' in
      let uc = pattern_of 8 ret in if not (uc == 0) && ltb 0 cpt then rest else (c', uc, status')

  -- The loop on the bits of the status, `ucCpt` going down to 1: a bit whose event finds no room is
  -- taken off the status.
  unfoldable pub events : ℕ → ℕ → PowerCam S → PowerCam S × ℕ
  unfolding data_in
  events zero status c = (c, status)
  events (suc n) status c =
      let (c', ret) = data_in k true set_int_code (2 ^ n) c in
      let full = events n (bit_and status (255 - 2 ^ n)) c' in
      let stored = events n status c' in
      let skipped = events n status c in
      if bit_and status (2 ^ n) == 0 then skipped else if ltb_ℤ ret (pos 0) then full else stored

  -- `I2c_interrupt_task` in the mode I2C_READ; `garbage` is the status before it is read.
  unfoldable pub read_events : ℕ → PowerCam S → PowerCam S
  read_events garbage c =
      let (c1, uc, status) = status_tries 3 garbage c in
      if not (eq_ℤ (pos uc) (negsuc 0))
      then (let (c2, status') = if status == 0 then (c1, status) else events 7 status c1 in
          clear_int i2c status' c2)
      else clear_int i2c 0 c1

  -- The same in the mode I2C_WRITE.
  unfoldable pub write_command : PowerCam S → PowerCam S
  write_command c =
      if c.bufw0 == c.bufw1
      then c
      else let i = advance k c.bufw1 in
        let row = c.buf_write i in
        let (s, ret) = write_i2c i2c c.client (take (get_or row 0 0) (drop 1 row)) c.bus in
        let c' = record c { bus = s } in if eq_ℤ ret (negsuc 0) then c' else record c' { bufw1 = i }

  -- `I2c_interrupt_task`
  unfoldable pub interrupt_task : ℕ → PowerCam S → PowerCam S
  interrupt_task garbage c =
      let started = record c { int_task = false } in
      let done =
        if c.mode == i2c_read
        then read_events garbage started
        else if c.mode == i2c_write
        then write_command started
        else started in
      record done { wakes = done.wakes + 1 }

  -- `I2c_irq`
  unfoldable pub i2c_irq : PowerCam S → PowerCam S
  i2c_irq c = record c { mode = i2c_read; int_task = true }

  -- `GetEtatBoutonG`, on the data register of the GPIO.
  unfoldable pub get_etat_bouton_g : ℕ → PowerCam S → PowerCam S × ℕ
  get_etat_bouton_g reg c =
      let etat = bit_and (reg / 2 ^ 2) 1 in (record c { etat_bouton_g = etat }, etat)

  -- `FctEtatBoutonG`, with its timer gone off.
  unfoldable pub fct_etat_bouton_g : ℕ → ℕ → PowerCam S → PowerCam S
  unfolding get_etat_bouton_g data_in
  fct_etat_bouton_g jiffies reg c =
      let (c1, etat) = get_etat_bouton_g reg (record c { timer_bouton = none }) in
      let told = (data_in k true alarme_hard bouton_g_face_avant c1).0 in
      if not (etat == 0)
      then record told { irq_bouton = true; wakes = told.wakes + 1 }
      else let c2 = if c1.cpt_poll == 0 then record told { wakes = told.wakes + 1 } else c1 in
        record c2 {
          timer_bouton = some (u32 (jiffies + k.hz / 100));
          cpt_poll = u32 (c2.cpt_poll + 1);
        }

  -- `IrqGpio1_2`
  unfoldable pub irq_gpio1_2 : ℕ → PowerCam S → PowerCam S
  irq_gpio1_2 jiffies c = record c {
    irq_bouton = false;
    cpt_poll = 0;
    timer_bouton = some (u32 (jiffies + k.hz / 100));
  }
