-- ===== src/CharDevice.antt =====
-- driver linux/pwm/AquaPwm.c, the skeleton of a driver for the PWM: its registration as a character
-- device, which pic18f.c repeats, and its file operations.
use gest_aqua.Prelude.{Bool, eq_ℤ, false, if◌then◌else◌, negsuc, not, pos, true, ℕ, ℤ}

-- `major`, the class and the device, as they stand in the kernel.
pub record CharDevice : Type 0 where
  pub major : ℤ
  pub class_made : Bool
  pub device_made : Bool

-- What `register_chrdev`, `class_create` and `device_create` answer.
pub record Replies : Type 0 where
  pub major : ℤ
  pub class_ok : Bool
  pub device_ok : Bool

-- `PwmAquaGest_init`, with what each of its errors takes away again.
unfoldable pub register : Replies → CharDevice → CharDevice × ℤ
register a d =
    if eq_ℤ a.major (pos 0)
    then (record d { major = pos 0 }, negsuc 0)
    else if not a.class_ok
    then (record d { major = pos 0 }, negsuc 0)
    else if not a.device_ok
    then (record d { major = pos 0; class_made = false }, negsuc 0)
    else (record { major = a.major; class_made = true; device_made = true }, pos 0)

-- `PwmAquaGest_exit`
unfoldable pub unregister : CharDevice → CharDevice
unregister d =
    if eq_ℤ d.major (pos 0)
    then d
    else record { major = pos 0; class_made = false; device_made = false }

-- `PwmAquaGest_ioctl` knows no command; `PwmAquaGest_open` and `PwmAquaGest_release` do nothing.
unfoldable pub aqua_ioctl : ℕ → ℤ
aqua_ioctl cmd = negsuc 21

unfoldable pub aqua_open : ℤ
aqua_open = pos 0

unfoldable pub aqua_release : ℤ
aqua_release = pos 0
