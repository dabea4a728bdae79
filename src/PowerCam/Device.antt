-- ===== src/PowerCam/Device.antt =====
-- dlgi2c.c: the driver's life, from the board found on the bus to its removal, and the opening and
-- closing of the device file.
use gest_aqua.Prelude.{Bool, [], bit_and, eq_ℤ, false, if◌then◌else◌, ltb, negsuc, none, not}
use gest_aqua.Prelude.{pos, true, u8, ℕ, ℤ, ◌*◌, ◌+◌, ◌-◌, ◌/◌, ◌==◌, ◌^◌, ◌∷◌}
use gest_aqua.PowerCam.{I2c, PowerCam, cmd_read, cmd_w_bank1, taille_buf, taille_buf_r}
use gest_aqua.PowerCam.Bus.{clear_int, receive, send}
use gest_aqua.PowerCam.Ring.{error}

-- What the kernel answers to `i2cPowerCam_attach`.
pub record Attach : Type 0 where
  pub kmalloc_ok : Bool
  pub attach_client : ℤ
  pub request_irq : ℤ
  pub gpio_data : ℕ

module _ {S : Type 0} (i2c : I2c S) where
  -- What is left of the driver's data when `i2cPowerCam_attach` succeeds.
  unfoldable pub reset : ℕ → PowerCam S → PowerCam S
  reset gpio c =
      let c1 = clear_int i2c 0 (record c { irq_carte = true; cpt_clear = 0; old_cpt_clear = 0 }) in
      record c1 {
        timer_trame_vie = none;
        nb_int_zero = 0;
        valeur_trame_vie = 0;
        etat_bouton_g = bit_and (gpio / 2 ^ 2) 1;
        buf_read = λ a. if ltb a (taille_buf * taille_buf_r) then 0 else c1.buf_read a;
        buf_write = λ i. if ltb i taille_buf then 0 ∷ [] else c1.buf_write i;
        bufr0 = 255;
        bufr1 = 255;
        bufw0 = 255;
        bufw1 = 255;
        data_on = false;
      }

  -- `i2cPowerCam_attach` for the adapter with a number.
  unfoldable pub attach : Attach → ℕ → PowerCam S → PowerCam S × ℤ
  attach os id c =
      if not (id == 1)
      then (c, error 12)
      else if not os.kmalloc_ok
      then (record c { client = false }, error 12)
      else if not (eq_ℤ os.attach_client (pos 0))
      then (record c { client = false }, os.attach_client)
      else let c1 = (receive i2c (cmd_read 0) (0 ∷ []) (record c { client = true })).0 in
        let c2 = (send i2c cmd_w_bank1 8 0 c1).0 in
        if not (eq_ℤ os.request_irq (pos 0))
        then (record c2 { client = false }, os.request_irq)
        else (reset os.gpio_data c2, pos 0)

module _ {S : Type 0} where
  -- `i2cPowerCam_detach`, the works having run to their end.
  unfoldable pub detach : PowerCam S → PowerCam S × ℤ
  detach c = (record c { client = false; irq_carte = false; irq_bouton = false }, pos 0)

  -- `i2c_PowerCam_open` and `i2c_PowerCam_release`; `is_open` is a `char`.
  unfoldable pub open_file : PowerCam S → PowerCam S × ℤ
  open_file c =
      if c.is_open == 0
      then (record c { is_open = 1 }, pos 0)
      else (record c { is_open = u8 (c.is_open + 1) }, pos 0)

  unfoldable pub release_file : PowerCam S → PowerCam S × ℤ
  release_file c =
      if c.is_open == 0 then (c, negsuc 0) else (record c { is_open = c.is_open - 1 }, pos 0)

  -- `i2c_PowerCam_poll`: POLLIN | POLLRDNORM when there is something to read.
  unfoldable pub poll : Bool → PowerCam S → ℤ
  poll file c = if not file then error 19 else if c.data_on then pos (1 + 64) else pos 0

-- `i2c_PowerCam_fasync`
unfoldable pub fasync : Bool → ℤ
fasync file = if file then pos 0 else error 19

-- The character device and its class, as `I2cPowerCam_init` leaves them, and what the kernel
-- answers to it: the number of the device, whether the class and the device are made.
pub record Registered : Type 0 where
  pub driver : Bool
  pub major : ℤ
  pub class_made : Bool
  pub device_made : Bool

pub record Answers : Type 0 where
  pub major : ℤ
  pub class_ok : Bool
  pub device_ok : Bool

-- `I2cPowerCam_init`; `client` says that `i2c_add_driver` has found the board. The driver is taken
-- away again on each of its errors.
unfoldable pub init_module : Bool → Answers → Registered → Registered × ℤ
init_module client a r =
    if not client
    then (record r { driver = false }, negsuc 0)
    else if eq_ℤ a.major (pos 0)
    then (record r { driver = false; major = pos 0 }, negsuc 0)
    else if not a.class_ok
    then (record r { driver = false; major = pos 0 }, negsuc 0)
    else if not a.device_ok
    then (record r { driver = false; major = pos 0; class_made = false }, negsuc 0)
    else (record { driver = true; major = a.major; class_made = true; device_made = true }, pos 0)

-- `I2cPowerCam_exit`
unfoldable pub exit_module : Bool → Registered → Registered
exit_module client r =
    let r1 = if client then record r { driver = false } else r in
    if eq_ℤ r.major (pos 0)
    then r1
    else record r1 { device_made = false; class_made = false; major = pos 0 }
