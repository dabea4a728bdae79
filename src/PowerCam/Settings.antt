-- ===== src/PowerCam/Settings.antt =====
-- The calls of `ioctl` that set one register of the board.
use gest_aqua.Prelude.{List, [], false, pos, refl, some, true, ℕ, ◌==◌, ◌≡◌}
use gest_aqua.PowerCam.{I2c, Kernel, PowerCam, frame}
use gest_aqua.PowerCam.Bus.{send, send_cmd}
use gest_aqua.PowerCam.Ioctl.{Ioctl, ioctl, ioctl_send, ioctl_switch, set_alim, set_bip_buzzer}
use gest_aqua.PowerCam.Ioctl.{set_etat_buzzer, set_etat_led, set_etat_relais, set_seuil_pir}
use gest_aqua.PowerCam.Life.{write_i2c_lem}

pub data Setting : Type 0 where
  led : ℕ → ℕ → Setting
  buzzer bip relais seuil_pir alim : ℕ → Setting

abbrev pub setting_call : Setting → Ioctl
setting_call (led n etat) = set_etat_led (some (n, etat))
setting_call (buzzer b) = set_etat_buzzer (some b)
setting_call (bip b) = set_bip_buzzer (some b)
setting_call (relais b) = set_etat_relais (some b)
setting_call (seuil_pir b) = set_seuil_pir (some b)
setting_call (alim b) = set_alim (some b)

-- The bytes for the board: the command, the size, the register, the byte and their sum.
abbrev pub setting_frame : Setting → List ℕ
setting_frame (led n etat) = frame 1 n etat
setting_frame (buzzer b) = frame 1 5 b
setting_frame (bip b) = frame 1 6 b
setting_frame (relais b) = frame 1 7 b
setting_frame (seuil_pir b) = frame 3 0 b
setting_frame (alim b) = frame 4 0 b

module _ {S : Type 0} (i2c : I2c S) (k : Kernel) (jiffies garbage : ℕ) where
  ioctl_send_lem :
      (cmd add b : ℕ) (c : PowerCam S)
      → c.client ≡ true
      → ioctl_send i2c k cmd add (some b) c
        ≡ (record c { bus = (i2c.master_send (frame cmd add b) c.bus).0 }, pos 0, [])
  unfolding ioctl_send send send_cmd
  ioctl_send_lem cmd add b c there = rw (there, write_i2c_lem i2c (frame cmd add b) c.bus) refl

  -- A call of `ioctl` that sets a led, the buzzer, its beep, the relay, the threshold of the detector
  -- or the power, on an open file with the board there, sends the frame of that register and byte,
  -- once, changes nothing else of the driver, and returns 0 whatever the bus answers.
  pub ioctl-setting_call :
      (x : Setting) (c : PowerCam S)
      → c.client ≡ true
      → (c.is_open == 0) ≡ false
      → ioctl i2c k true jiffies garbage (setting_call x) c
        ≡ some (record c { bus = (i2c.master_send (setting_frame x) c.bus).0 }, pos 0, [])
  unfolding ioctl ioctl_switch
  ioctl-setting_call (led n etat) c there is_open =
      rw (is_open, ioctl_send_lem 1 n etat c there) refl
  ioctl-setting_call (buzzer b) c there is_open = rw (is_open, ioctl_send_lem 1 5 b c there) refl
  ioctl-setting_call (bip b) c there is_open = rw (is_open, ioctl_send_lem 1 6 b c there) refl
  ioctl-setting_call (relais b) c there is_open = rw (is_open, ioctl_send_lem 1 7 b c there) refl
  ioctl-setting_call (seuil_pir b) c there is_open = rw (is_open, ioctl_send_lem 3 0 b c there) refl
  ioctl-setting_call (alim b) c there is_open = rw (is_open, ioctl_send_lem 4 0 b c there) refl
