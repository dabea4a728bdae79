-- ===== src/RegDebug/Replied.antt =====
-- regdebug.c: what the commands tell the application.
use gest_aqua.Prelude.{Bool, eq_ℤ, if◌then◌else◌, leb_ℤ, not, pos}
use gest_aqua.Prelude.{ℤ, ◌≡◌}
use gest_aqua.PowerCam.Masks.{told}
use gest_aqua.RegDebug.{Camera, Platform, Registers}
use gest_aqua.RegDebug.Handler.{Outcome, RegIoctl, einval, is_some, reg_r_ov9655}
use gest_aqua.RegDebug.Handler.{reg_r_vs6624, reg_w_ov9655, reg_w_vs6624}

-- The registers that a pair of commands reads and writes.
pub data Bank : Type 0 where
  imx_bank lan_bank mac_bank : Bank

-- The two cameras, and the commands that read and write their registers.
pub data Sensor : Type 0 where
  vs6624_sensor ov9655_sensor : Sensor

abbrev pub sensor_read : Sensor → RegIoctl
sensor_read vs6624_sensor = reg_r_vs6624
sensor_read ov9655_sensor = reg_r_ov9655

abbrev pub sensor_write : Sensor → RegIoctl
sensor_write vs6624_sensor = reg_w_vs6624
sensor_write ov9655_sensor = reg_w_ov9655

module _ {S : Type 0} (k : Platform S) where
  abbrev pub registers_of : Bank → Registers S
  registers_of imx_bank = k.imx
  registers_of lan_bank = k.lan
  registers_of mac_bank = k.mac

  abbrev pub camera_of : Sensor → Camera S
  camera_of vs6624_sensor = k.vs6624
  camera_of ov9655_sensor = k.ov9655

  abbrev pub is_configured : Sensor → Bool
  is_configured vs6624_sensor = k.config_vs6624
  is_configured ov9655_sensor = k.config_ov9655

  -- What a write and a read return and tell, the readings giving `ret`.
  abbrev Tells : ℤ → Outcome S → Outcome S → Type 0
  Tells ret (b1, ret1, told) (b2, ret2, reply) =
      (ret1 ≡ pos 0)
      × (is_some told ≡ not (eq_ℤ ret (pos 0)))
      × (ret2 ≡ (if leb_ℤ (pos 0) ret then pos 0 else einval))
      × (is_some reply ≡ leb_ℤ (pos 0) ret)
