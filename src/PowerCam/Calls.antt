-- ===== src/PowerCam/Calls.antt =====
-- dlgi2c.c: `i2c_PowerCam_ioctl` and the rings.
use gest_aqua.Prelude.{Bool, List, Option, [], arith, drop, if-keeps, if◌then◌else◌, leb_ℤ, ltb}
use gest_aqua.Prelude.{none, not, pos, some, take, u8, ℕ, ℤ, ◌++◌, ◌+◌, ◌/◌, ◌==◌, ◌∷◌}
use gest_aqua.PowerCam.{I2c, Kernel, PowerCam, check_i2c, cmd_read, cmd_w_bank1, cmd_w_seuil_pir}
use gest_aqua.PowerCam.{cmd_w_stop_alim, cmd_w_trame_vie}
use gest_aqua.PowerCam.Bus.{receive}
use gest_aqua.PowerCam.Ioctl.{Ioctl, del_int, get_alim, get_bat_low, get_cmd, get_int}
use gest_aqua.PowerCam.Ioctl.{get_status_on, get_val_bouton_d, get_val_bouton_g, get_val_input}
use gest_aqua.PowerCam.Ioctl.{ioctl, ioctl_del_int, ioctl_get_alim, ioctl_get_cmd, ioctl_receive}
use gest_aqua.PowerCam.Ioctl.{ioctl_send, ioctl_set_cmd, ioctl_set_en_trame_vie, ioctl_set_int}
use gest_aqua.PowerCam.Ioctl.{ioctl_switch, other, set_alim, set_bip_buzzer, set_cmd}
use gest_aqua.PowerCam.Ioctl.{set_en_trame_vie, set_etat_buzzer, set_etat_led, set_etat_relais}
use gest_aqua.PowerCam.Ioctl.{set_int, set_seuil_pir, taille_buffer}
use gest_aqua.PowerCam.Ring.{enqueue, error}
use gest_aqua.PowerCam.Rings.{IsSound, enqueue-IsSound, rings-receive, rings-send}

module _ {S : Type 0} (i2c : I2c S) (k : Kernel) where
  -- The state that a call leaves, if it returns, is sound.
  abbrev pub KeepsSound : Option (PowerCam S × ℤ × List ℕ) → Type 0
  KeepsSound none = Unit
  KeepsSound (some (c, ret, out)) = IsSound c

  ioctl_send-IsSound :
      (cmd add : ℕ) (arg : Option ℕ) (c : PowerCam S)
      → IsSound c
      → IsSound (ioctl_send i2c k cmd add arg c).0
  unfolding ioctl_send
  ioctl_send-IsSound cmd add none c h = h
  ioctl_send-IsSound cmd add (some b) c h = ground (arith, rings-send i2c k cmd add b c)

  ioctl_receive-IsSound :
      (reg : ℕ) (err : ℤ) (g : ℕ) (c : PowerCam S)
      → IsSound c
      → IsSound (ioctl_receive i2c k reg err g c).0
  unfolding ioctl_receive
  ioctl_receive-IsSound reg err g c h =
      ground (arith, rings-receive i2c k (cmd_read reg) (g ∷ []) c)

  ioctl_set_cmd-IsSound :
      (arg : Option (ℕ × List ℕ × ℕ)) (c : PowerCam S)
      → IsSound c
      → KeepsSound (ioctl_set_cmd i2c k arg c)
  unfolding ioctl_set_cmd
  ioctl_set_cmd-IsSound none c h = h
  ioctl_set_cmd-IsSound (some (cmd, buffer, taille)) c h =
      let head = u8 cmd ∷ u8 (taille + 1) ∷ take taille buffer in
      let bytes = head ++ check_i2c head ∷ [] in
      if-keeps KeepsSound (ltb taille_buffer taille) {x = none}
        {y = some ((enqueue k bytes c).0, pos 0, [])} tt (enqueue-IsSound i2c k bytes c h)

  ioctl_get_cmd-IsSound :
      (arg : Option (ℕ × List ℕ × ℕ)) (c : PowerCam S)
      → IsSound c
      → KeepsSound (ioctl_get_cmd i2c k arg c)
  unfolding ioctl_get_cmd
  ioctl_get_cmd-IsSound none c h = h
  ioctl_get_cmd-IsSound (some (cmd, buffer, taille)) c h =
      let (c', ret, answer) = receive i2c cmd (take taille buffer) c in
      let told = u8 cmd ∷ cmd / 256 ∷ answer ++ drop taille buffer ++ taille ∷ [] in
      if-keeps KeepsSound (ltb taille_buffer taille) {x = none}
        {y = if leb_ℤ (pos 0) ret then some (c', pos 0, told) else some (c', pos 0, [])} tt
        (if-keeps KeepsSound (leb_ℤ (pos 0) ret) {x = some (c', pos 0, told)}
          {y = some (c', pos 0, [])} h h)

  ioctl_set_int-IsSound :
      (jiffies : ℕ) (arg : Option ℕ) (c : PowerCam S)
      → IsSound c
      → IsSound (ioctl_set_int i2c k jiffies arg c).0
  unfolding ioctl_set_int
  ioctl_set_int-IsSound jiffies none c h = h
  ioctl_set_int-IsSound jiffies (some b) c h = ground arith

  ioctl_del_int-IsSound :
      (arg : Option ℕ) (c : PowerCam S) → IsSound c → IsSound (ioctl_del_int i2c k arg c).0
  unfolding ioctl_del_int
  ioctl_del_int-IsSound none c h = h
  ioctl_del_int-IsSound (some b) c h = ground arith

  ioctl_get_alim-IsSound :
      (g : ℕ) (c : PowerCam S) → IsSound c → IsSound (ioctl_get_alim i2c k g c).0
  unfolding ioctl_get_alim
  ioctl_get_alim-IsSound g c h = ground arith

  ioctl_set_en_trame_vie-IsSound :
      (jiffies : ℕ) (arg : Option ℕ) (c : PowerCam S)
      → IsSound c
      → IsSound (ioctl_set_en_trame_vie i2c k jiffies arg c).0
  unfolding ioctl_set_en_trame_vie
  ioctl_set_en_trame_vie-IsSound jiffies none c h = h
  ioctl_set_en_trame_vie-IsSound jiffies (some b) c h =
      ground (arith, rings-send i2c k cmd_w_trame_vie 1 b c)

  switch-IsSound :
      (jiffies g : ℕ) (cmd : Ioctl) (c : PowerCam S)
      → IsSound c
      → KeepsSound (ioctl_switch i2c k jiffies g cmd c)
  unfolding ioctl_switch
  switch-IsSound jiffies g (set_cmd arg) c h = ioctl_set_cmd-IsSound arg c h
  switch-IsSound jiffies g (get_cmd arg) c h = ioctl_get_cmd-IsSound arg c h
  switch-IsSound jiffies g (set_etat_led none) c h = h
  switch-IsSound jiffies g (set_etat_led (some (led, etat))) c h =
      ioctl_send-IsSound cmd_w_bank1 led (some etat) c h
  switch-IsSound jiffies g get_int c h = ioctl_receive-IsSound 3 (pos 0) g c h
  switch-IsSound jiffies g (set_int arg) c h = ioctl_set_int-IsSound jiffies arg c h
  switch-IsSound jiffies g (del_int arg) c h = ioctl_del_int-IsSound arg c h
  switch-IsSound jiffies g (set_etat_buzzer arg) c h = ioctl_send-IsSound cmd_w_bank1 5 arg c h
  switch-IsSound jiffies g (set_bip_buzzer arg) c h = ioctl_send-IsSound cmd_w_bank1 6 arg c h
  switch-IsSound jiffies g (set_etat_relais arg) c h = ioctl_send-IsSound cmd_w_bank1 7 arg c h
  switch-IsSound jiffies g (set_seuil_pir arg) c h = ioctl_send-IsSound cmd_w_seuil_pir 0 arg c h
  switch-IsSound jiffies g (set_alim arg) c h = ioctl_send-IsSound cmd_w_stop_alim 0 arg c h
  switch-IsSound jiffies g get_alim c h = ioctl_get_alim-IsSound g c h
  switch-IsSound jiffies g get_status_on c h = ioctl_receive-IsSound 61 (error 22) g c h
  switch-IsSound jiffies g (set_en_trame_vie arg) c h =
      ioctl_set_en_trame_vie-IsSound jiffies arg c h
  switch-IsSound jiffies g get_bat_low c h = ioctl_receive-IsSound 9 (error 22) g c h
  switch-IsSound jiffies g get_val_input c h = ioctl_receive-IsSound 5 (error 22) g c h
  switch-IsSound jiffies g get_val_bouton_d c h = ioctl_receive-IsSound 4 (error 22) g c h
  switch-IsSound jiffies g get_val_bouton_g c h = h
  switch-IsSound jiffies g other c h = h

  pub ioctl-IsSound :
      (file : Bool) (jiffies g : ℕ) (cmd : Ioctl) (c : PowerCam S)
      → IsSound c
      → KeepsSound (ioctl i2c k file jiffies g cmd c)
  unfolding ioctl
  ioctl-IsSound file jiffies g cmd c h =
      let switch = ioctl_switch i2c k jiffies g cmd c in
      let no_dev : Option (PowerCam S × ℤ × List ℕ) = some (c, error 19, []) in
      if-keeps KeepsSound (not file) {x = no_dev}
        {y = if not (c.is_open == 0) then switch else no_dev} h
        (if-keeps KeepsSound (not (c.is_open == 0)) {x = switch} {y = no_dev}
          (switch-IsSound jiffies g cmd c h) h)
