-- ===== src/PowerCam/Ioctl.antt =====
-- dlgi2c.c: `i2c_PowerCam_ioctl`. An argument is what `copy_from_user` reads, or `none` when it
-- fails; a reply is what `copy_to_user` writes, whose own result the code does not read.
use gest_aqua.Prelude.{Bool, List, Option, [], bit_and, bit_or, drop, false, get_or}
use gest_aqua.Prelude.{if◌then◌else◌, leb_ℤ, ltb, ltb_ℤ, none, not, pos, some, take, u32, u8, ℕ}
use gest_aqua.Prelude.{ℤ, ◌*◌, ◌++◌, ◌+◌, ◌-◌, ◌/◌, ◌==◌, ◌∷◌}
use gest_aqua.PowerCam.{I2c, Kernel, PowerCam, check_i2c, cmd_read, cmd_w_bank1, cmd_w_int}
use gest_aqua.PowerCam.{cmd_w_seuil_pir, cmd_w_stop_alim, cmd_w_trame_vie, int_bouton}
use gest_aqua.PowerCam.Bus.{receive, send}
use gest_aqua.PowerCam.Ring.{enqueue, error}

pub data Ioctl : Type 0 where
  set_cmd : Option (ℕ × List ℕ × ℕ) → Ioctl
  get_cmd : Option (ℕ × List ℕ × ℕ) → Ioctl
  set_etat_led : Option (ℕ × ℕ) → Ioctl
  get_int : Ioctl
  set_int : Option ℕ → Ioctl
  del_int : Option ℕ → Ioctl
  set_etat_buzzer : Option ℕ → Ioctl
  set_bip_buzzer : Option ℕ → Ioctl
  set_etat_relais : Option ℕ → Ioctl
  set_seuil_pir : Option ℕ → Ioctl
  set_alim : Option ℕ → Ioctl
  get_alim : Ioctl
  get_status_on : Ioctl
  set_en_trame_vie : Option ℕ → Ioctl
  get_bat_low : Ioctl
  get_val_input : Ioctl
  get_val_bouton_d : Ioctl
  get_val_bouton_g : Ioctl
  other : Ioctl

-- The size of `cBuffer` in `struct DlgImxPowerCam`.
abbrev pub taille_buffer : ℕ
taille_buffer = 65

module _ {S : Type 0} (i2c : I2c S) (k : Kernel) where
  -- The cases that send a register and a byte.
  unfoldable pub ioctl_send : ℕ → ℕ → Option ℕ → PowerCam S → PowerCam S × ℤ × List ℕ
  unfolding send
  ioctl_send cmd add arg c = elim arg [
    | none ↦ (c, error 22, [])
    | some b ↦
        let (c', ret) = send i2c cmd add b c in
        (c', if ltb_ℤ ret (pos 0) then error 22 else pos 0, [])
  ]

  -- The cases that read one byte of a register, with the error of a reading that fails; `garbage` is
  -- what the buffer holds.
  unfoldable pub ioctl_receive : ℕ → ℤ → ℕ → PowerCam S → PowerCam S × ℤ × List ℕ
  unfolding receive
  ioctl_receive reg err garbage c =
      let (c', ret, answer) = receive i2c (cmd_read reg) (garbage ∷ []) c in
      if leb_ℤ (pos 0) ret then (c', pos 0, take 1 answer) else (c', err, [])

  -- I2C_SET_CMD; `none` reads past the end of `cBuffer`.
  unfoldable pub ioctl_set_cmd :
      Option (ℕ × List ℕ × ℕ) → PowerCam S → Option (PowerCam S × ℤ × List ℕ)
  unfolding enqueue check_i2c
  ioctl_set_cmd arg c = elim arg [
    | none ↦ some (c, error 22, [])
    | some (cmd, buffer, taille) ↦
        if ltb taille_buffer taille
        then none
        else let head = u8 cmd ∷ u8 (taille + 1) ∷ take taille buffer in
          some ((enqueue k (head ++ check_i2c head ∷ []) c).0, pos 0, [])
  ]

  -- I2C_GET_CMD; `none` writes past the end of `cBuffer`.
  unfoldable pub ioctl_get_cmd :
      Option (ℕ × List ℕ × ℕ) → PowerCam S → Option (PowerCam S × ℤ × List ℕ)
  unfolding receive
  ioctl_get_cmd arg c = elim arg [
    | none ↦ some (c, pos 0, [])
    | some (cmd, buffer, taille) ↦
        if ltb taille_buffer taille
        then none
        else let (c', ret, answer) = receive i2c cmd (take taille buffer) c in
          if leb_ℤ (pos 0) ret
          then some (c', pos 0, u8 cmd ∷ cmd / 256 ∷ answer ++ drop taille buffer ++ taille ∷ [])
          else some (c', pos 0, [])
  ]

  -- I2C_SET_INT
  unfoldable pub ioctl_set_int : ℕ → Option ℕ → PowerCam S → PowerCam S × ℤ × List ℕ
  unfolding send
  ioctl_set_int jiffies arg c = elim arg [
    | none ↦ (c, error 22, [])
    | some b ↦
        let c1 =
          if b == int_bouton
          then record c { cpt_poll = 0; timer_bouton = some (u32 (jiffies + k.hz)) }
          else c in
        let valide = bit_or c1.int_valide b in
        let (c2, ret) = send i2c cmd_w_int 0 valide c1 in
        if ltb_ℤ ret (pos 0)
        then (c2, error 22, [])
        else (record c2 { int_valide = valide }, pos 0, [])
  ]

  -- I2C_DEL_INT
  unfoldable pub ioctl_del_int : Option ℕ → PowerCam S → PowerCam S × ℤ × List ℕ
  unfolding send
  ioctl_del_int arg c = elim arg [
    | none ↦ (c, error 22, [])
    | some b ↦
        let c1 = if b == int_bouton then record c { irq_bouton = false } else c in
        let valide = bit_and c1.int_valide (255 - b) in
        let (c2, ret) = send i2c cmd_w_int 0 valide c1 in
        if ltb_ℤ ret (pos 0)
        then (c2, error 22, [])
        else (record c2 { int_valide = valide }, pos 0, [])
  ]

  -- I2C_GET_ALIM
  unfoldable pub ioctl_get_alim : ℕ → PowerCam S → PowerCam S × ℤ × List ℕ
  unfolding receive
  ioctl_get_alim garbage c =
      let (c1, ret1, poe) = receive i2c (cmd_read 7) (garbage ∷ []) c in
      let (c2, ret2, volts) = receive i2c (cmd_read 8) (take 1 poe) c1 in
      if leb_ℤ (pos 0) ret1
      then if leb_ℤ (pos 0) ret2
        then (c2, pos 0, bit_or (u8 (get_or poe 0 0 * 16)) (get_or volts 0 0) ∷ [])
        else (c2, error 11, [])
      else (c1, error 11, [])

  -- I2C_SET_EN_TRAME_VIE
  unfoldable pub ioctl_set_en_trame_vie : ℕ → Option ℕ → PowerCam S → PowerCam S × ℤ × List ℕ
  unfolding send
  ioctl_set_en_trame_vie jiffies arg c = elim arg [
    | none ↦ (c, error 22, [])
    | some b ↦
        if b == 0
        then (record c { timer_trame_vie = none }, pos 0, [])
        else let sent = (send i2c cmd_w_trame_vie 1 b c).0 in
          (record sent { timer_trame_vie = some (u32 (jiffies + k.hz)) }, pos 0, [])
  ]

  -- The `switch` of `i2c_PowerCam_ioctl`.
  unfoldable pub ioctl_switch : ℕ → ℕ → Ioctl → PowerCam S → Option (PowerCam S × ℤ × List ℕ)
  unfolding ioctl_send ioctl_receive ioctl_set_cmd ioctl_get_cmd ioctl_set_int ioctl_del_int
      ioctl_get_alim ioctl_set_en_trame_vie
  ioctl_switch jiffies g (set_cmd arg) c = ioctl_set_cmd arg c
  ioctl_switch jiffies g (get_cmd arg) c = ioctl_get_cmd arg c
  ioctl_switch jiffies g (set_etat_led none) c = some (c, error 22, [])
  ioctl_switch jiffies g (set_etat_led (some (led, etat))) c =
      some (ioctl_send cmd_w_bank1 led (some etat) c)
  ioctl_switch jiffies g get_int c = some (ioctl_receive 3 (pos 0) g c)
  ioctl_switch jiffies g (set_int arg) c = some (ioctl_set_int jiffies arg c)
  ioctl_switch jiffies g (del_int arg) c = some (ioctl_del_int arg c)
  ioctl_switch jiffies g (set_etat_buzzer arg) c = some (ioctl_send cmd_w_bank1 5 arg c)
  ioctl_switch jiffies g (set_bip_buzzer arg) c = some (ioctl_send cmd_w_bank1 6 arg c)
  ioctl_switch jiffies g (set_etat_relais arg) c = some (ioctl_send cmd_w_bank1 7 arg c)
  ioctl_switch jiffies g (set_seuil_pir arg) c = some (ioctl_send cmd_w_seuil_pir 0 arg c)
  ioctl_switch jiffies g (set_alim arg) c = some (ioctl_send cmd_w_stop_alim 0 arg c)
  ioctl_switch jiffies g get_alim c = some (ioctl_get_alim g c)
  ioctl_switch jiffies g get_status_on c = some (ioctl_receive 61 (error 22) g c)
  ioctl_switch jiffies g (set_en_trame_vie arg) c = some (ioctl_set_en_trame_vie jiffies arg c)
  ioctl_switch jiffies g get_bat_low c = some (ioctl_receive 9 (error 22) g c)
  ioctl_switch jiffies g get_val_input c = some (ioctl_receive 5 (error 22) g c)
  ioctl_switch jiffies g get_val_bouton_d c = some (ioctl_receive 4 (error 22) g c)
  ioctl_switch jiffies g get_val_bouton_g c = some (c, pos 0, c.etat_bouton_g ∷ [])
  ioctl_switch jiffies g other c = some (c, error 22, [])

  -- `i2c_PowerCam_ioctl`: the state, the value returned and the bytes for the application.
  unfoldable pub ioctl : Bool → ℕ → ℕ → Ioctl → PowerCam S → Option (PowerCam S × ℤ × List ℕ)
  unfolding ioctl_switch
  ioctl file jiffies g cmd c =
      if not file
      then some (c, error 19, [])
      else if not (c.is_open == 0)
      then ioctl_switch jiffies g cmd c
      else some (c, error 19, [])
