-- ===== src/Pic18f.antt =====
-- driver linux/exemple/stim_drivers/pic18f.c: the driver that programs a PIC18F over four pins of the
-- processor. A pin has its output latch: the level last given to `mxc_set_gpio_dataout`.
pub mod Pins
use gest_aqua.Prelude.{Bool, List, Option, bit_and, eq_ℤ, false, if◌then◌else◌, negsuc, none}
use gest_aqua.Prelude.{not, pos, signed, some, true, ℕ, ℤ, ◌==◌, ◌∷◌}
use gest_aqua.CharDevice.{CharDevice, Replies, register, unregister}

-- A write to the power management chip; the mask is `none` for PMIC_ALL_BITS.
pub data PmicWrite : Type 0 where
  led_control_0 led_control_2 : ℕ → Option ℕ → PmicWrite

-- The static variables with the state of the pins. The data pin shows the level of its latch `sdata`
-- only as an output: as an input, when `sdata_in` holds, it is in high impedance. `irq` says that the processor takes interrupts,
-- and `lines` that `InitPic18f` has set the pins up.
pub record Pic18f : Type 0 where
  pub dev : CharDevice
  pub etat_out : ℕ
  pub sdata : ℕ
  pub sclk : ℕ
  pub pgm : ℕ
  pub vpp : ℕ
  pub sdata_in : Bool
  pub irq : Bool
  pub lines : Bool
  pub pmic : List PmicWrite

-- The levels at rest.
unfoldable pub rest : Pic18f → Pic18f
rest c = record c { sdata = 0; sclk = 0; pgm = 0; vpp = 1 }

-- `PIC18F_init`; the latest write to the power management chip comes first.
unfoldable pub pic_init : Replies → Pic18f → Pic18f × ℤ
unfolding rest register
pic_init a c =
    let (dev, ret) = register a c.dev in
    let c' = record c { dev = dev } in
    if eq_ℤ ret (pos 0)
    then (
      record (rest c') {
        lines = true;
        pmic =
            led_control_0 1 (some 1)
            ∷ led_control_2 0xe00 (some 0x1e00)
            ∷ led_control_2 7 none
            ∷ c.pmic;
      },
      pos 0,
    )
    else (c', negsuc 0)

-- `PIC18F_exit`
unfoldable pub pic_exit : Pic18f → Pic18f
unfolding unregister
pic_exit c = if eq_ℤ c.dev.major (pos 0) then c else record c {
  dev = unregister c.dev;
  lines = false;
  pmic = led_control_0 0 (some 1) ∷ led_control_2 0 none ∷ c.pmic;
}

-- `PIC18F_open` and `PIC18F_close`
unfoldable pub pic_open : Pic18f → Pic18f × ℤ
pic_open c = (record c { etat_out = 0 }, pos 0)

unfoldable pub pic_close : Pic18f → Pic18f × ℤ
unfolding rest
pic_close c = (rest c, pos 0)

-- The commands; `write_data` has the value that `get_user` returns and the word read, and `foreign`
-- is a command of another type than PIC18F_MAGIC.
pub data PicIoctl : Type 0 where
  read_data : PicIoctl
  write_data : ℤ → ℕ → PicIoctl
  read_stat : PicIoctl
  write_stat : PicIoctl
  unknown : PicIoctl
  foreign : PicIoctl

-- The pins as `PIC18F_WRITE_DATA` sets them: VPP is inverted.
unfoldable pub set_pins : ℕ → Pic18f → Pic18f
set_pins param c = record c {
  sdata = if bit_and param 1 == 0 then 0 else 1;
  sclk = if bit_and param 2 == 0 then 0 else 1;
  pgm = if bit_and param 4 == 0 then 0 else 1;
  vpp = if bit_and param 8 == 0 then 1 else 0;
  sdata_in = not (bit_and param 16 == 0);
  etat_out = param;
}

-- The body of the `switch`, interrupts being off: the state, the value returned, and whether the end
-- of the function is reached.
unfoldable pub pic_switch : ℕ → PicIoctl → Pic18f → Pic18f × ℤ × Bool
unfolding set_pins
pic_switch level read_data c = (c, signed 32 c.etat_out, true)
pic_switch level (write_data err param) c =
    if eq_ℤ err (pos 0) then (set_pins param c, signed 32 param, true) else (c, err, false)
pic_switch level read_stat c = (c, if level == 0 then pos 0 else pos 64, true)
pic_switch level write_stat c = (c, pos 0, true)
pic_switch level unknown c = (c, pos 0, true)
pic_switch level foreign c = (c, negsuc 24, true)

-- `PIC18F_ioctl`, with the level of the data pin.
unfoldable pub pic_ioctl : ℕ → PicIoctl → Pic18f → Pic18f × ℤ
unfolding pic_switch
pic_ioctl level foreign c = (c, negsuc 24)
pic_ioctl level cmd c =
    let (c', ret, over) = pic_switch level cmd (record c { irq = false }) in
    (if over then record c' { irq = c.irq } else c', ret)
