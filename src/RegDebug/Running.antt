-- ===== src/RegDebug/Running.antt =====
-- regdebug.c: what the commands leave of the camera's clock.
use gest_aqua.Prelude.{Bool, Option, arith, eq_ℤ, false, if◌then◌else◌, none, pos, refl, some}
use gest_aqua.Prelude.{true, ℕ, ◌&&◌, ◌≡◌}
use gest_aqua.RegDebug.{Board, Camera, Platform, Registers, Setting, StimDebugReg}
use gest_aqua.RegDebug.Clock.{enable_mclk, set_mclk_rate}
use gest_aqua.RegDebug.Handler.{Outcome, RegIoctl, einval, is_some, no_case, r_camera}
use gest_aqua.RegDebug.Handler.{r_register, r_setting, reg_r_l_imx, reg_r_ov9655}
use gest_aqua.RegDebug.Handler.{reg_r_ov9655_aec, reg_r_ov9655_agc, reg_r_smsc9115}
use gest_aqua.RegDebug.Handler.{reg_r_smsc9115_mac, reg_r_vs6624, reg_w_l_imx, reg_w_ov9655}
use gest_aqua.RegDebug.Handler.{reg_w_ov9655_aec, reg_w_ov9655_agc, reg_w_smsc9115}
use gest_aqua.RegDebug.Handler.{reg_w_smsc9115_mac, reg_w_vs6624, regdebug_ioctl, stim_pm_resume}
use gest_aqua.RegDebug.Handler.{stim_pm_suspend, w_camera, w_register, w_setting}

-- Whether a command has come to start the camera's clock, and whether its errors leave it running.
abbrev pub starts_clock : {S : Type 0} → Platform S → RegIoctl → Option StimDebugReg → Bool
starts_clock k reg_r_vs6624 arg = is_some arg && k.config_vs6624
starts_clock k reg_w_vs6624 arg = is_some arg && k.config_vs6624
starts_clock k reg_r_ov9655 arg = is_some arg && k.config_ov9655
starts_clock k reg_w_ov9655 arg = is_some arg && k.config_ov9655
starts_clock k reg_r_ov9655_aec arg = is_some arg && k.config_ov9655
starts_clock k reg_w_ov9655_aec arg = is_some arg && k.config_ov9655
starts_clock k reg_r_ov9655_agc arg = is_some arg && k.config_ov9655
starts_clock k reg_w_ov9655_agc arg = is_some arg && k.config_ov9655
starts_clock k _ arg = false

abbrev pub leaves_clock : RegIoctl → Bool
leaves_clock reg_w_ov9655_aec = false
leaves_clock reg_w_ov9655_agc = false
leaves_clock _ = true

module _ {S : Type 0} (k : Platform S) where
  mclk-set_mclk_rate : (p : ℕ) (b : Board S) → (set_mclk_rate k p b).mclk ≡ b.mclk
  unfolding set_mclk_rate
  mclk-set_mclk_rate p b = refl

  -- The clock after a command that starts it; `quiet` is what an error leaves.
  abbrev IsClock : Bool → Option StimDebugReg → Board S → Outcome S → Type 0
  IsClock running none b (b', ret, reply) = b'.mclk ≡ b.mclk
  IsClock running (some a) b (b', ret, reply) =
      b'.mclk ≡ (if eq_ℤ ret (pos 0) then false else running)

  r_camera-IsClock :
      (cam : Camera S) (mclk : ℕ) (arg : Option StimDebugReg) (b : Board S)
      → IsClock true arg b (r_camera k cam mclk arg b)
  unfolding r_camera enable_mclk
  r_camera-IsClock cam mclk none b = mclk-set_mclk_rate mclk b
  r_camera-IsClock cam mclk (some a) b = ground arith

  w_camera-IsClock :
      (cam : Camera S) (mclk : ℕ) (arg : Option StimDebugReg) (b : Board S)
      → IsClock true arg b (w_camera k cam mclk arg b)
  unfolding w_camera enable_mclk
  w_camera-IsClock cam mclk none b = mclk-set_mclk_rate mclk b
  w_camera-IsClock cam mclk (some a) b = ground arith

  r_setting-IsClock :
      (s : Setting S) (arg : Option StimDebugReg) (b : Board S)
      → IsClock true arg b (r_setting k s arg b)
  unfolding r_setting enable_mclk
  r_setting-IsClock s none b = mclk-set_mclk_rate 24000000 b
  r_setting-IsClock s (some a) b = ground arith

  w_setting-IsClock :
      (s : Setting S) (arg : Option StimDebugReg) (b : Board S)
      → IsClock false arg b (w_setting k s arg b)
  unfolding w_setting enable_mclk
  w_setting-IsClock s none b = mclk-set_mclk_rate 24000000 b
  w_setting-IsClock s (some a) b = ground arith

  mclk-r_register :
      (r : Registers S) (arg : Option StimDebugReg) (b : Board S)
      → (r_register k r arg b).0.mclk ≡ b.mclk
  unfolding r_register
  mclk-r_register r none b = refl
  mclk-r_register r (some a) b = refl

  mclk-w_register :
      (told : Bool) (r : Registers S) (arg : Option StimDebugReg) (b : Board S)
      → (w_register k told r arg b).0.mclk ≡ b.mclk
  unfolding w_register
  mclk-w_register told r none b = refl
  mclk-w_register told r (some a) b = refl

  -- A command of a part that may not be configured.
  configured :
      (c running : Bool) (arg : Option StimDebugReg) (b : Board S) (o : Outcome S)
      → IsClock running arg b o
      → (if c then o else (b, einval, none)).0.mclk ≡ (
          if is_some arg && c
          then if eq_ℤ (if c then o else (b, einval, none)).1 (pos 0) then false else running
          else b.mclk)
  configured true running none b o h = h
  configured true running (some a) b o h = h
  configured false running none b o h = refl
  configured false running (some a) b o h = refl

  unchanged :
      (c : Bool) (b : Board S) (o : Outcome S)
      → o.0.mclk ≡ b.mclk
      → (if c then o else (b, einval, none)).0.mclk ≡ b.mclk
  unchanged true b o h = h
  unchanged false b o h = refl

  -- Whether the camera's clock runs after a command. A command that starts it stops it again when it
  -- succeeds; when it fails, the clock is left running, but by the writes of the exposure and of the
  -- gain. Every other command, and one whose argument cannot be read, leaves the clock running or
  -- stopped as it was; the rate of the clock is not spoken of.
  pub mclk-regdebug_ioctl :
      (cmd : RegIoctl) (arg : Option StimDebugReg) (b : Board S)
      → let (b', ret, reply) = regdebug_ioctl k cmd arg b in
        b'.mclk ≡ (
          if starts_clock k cmd arg
          then if eq_ℤ ret (pos 0) then false else leaves_clock cmd
          else b.mclk)
  unfolding regdebug_ioctl
  mclk-regdebug_ioctl reg_r_l_imx arg b = mclk-r_register k.imx arg b
  mclk-regdebug_ioctl reg_w_l_imx arg b = mclk-w_register true k.imx arg b
  mclk-regdebug_ioctl reg_r_vs6624 arg b =
      configured k.config_vs6624 true arg b (r_camera k k.vs6624 12000000 arg b)
        (r_camera-IsClock k.vs6624 12000000 arg b)
  mclk-regdebug_ioctl reg_w_vs6624 arg b =
      configured k.config_vs6624 true arg b (w_camera k k.vs6624 12000000 arg b)
        (w_camera-IsClock k.vs6624 12000000 arg b)
  mclk-regdebug_ioctl reg_r_ov9655 arg b =
      configured k.config_ov9655 true arg b (r_camera k k.ov9655 24000000 arg b)
        (r_camera-IsClock k.ov9655 24000000 arg b)
  mclk-regdebug_ioctl reg_w_ov9655 arg b =
      configured k.config_ov9655 true arg b (w_camera k k.ov9655 24000000 arg b)
        (w_camera-IsClock k.ov9655 24000000 arg b)
  mclk-regdebug_ioctl reg_r_ov9655_aec arg b =
      configured k.config_ov9655 true arg b (r_setting k k.aec arg b)
        (r_setting-IsClock k.aec arg b)
  mclk-regdebug_ioctl reg_w_ov9655_aec arg b =
      configured k.config_ov9655 false arg b (w_setting k k.aec arg b)
        (w_setting-IsClock k.aec arg b)
  mclk-regdebug_ioctl reg_r_ov9655_agc arg b =
      configured k.config_ov9655 true arg b (r_setting k k.agc arg b)
        (r_setting-IsClock k.agc arg b)
  mclk-regdebug_ioctl reg_w_ov9655_agc arg b =
      configured k.config_ov9655 false arg b (w_setting k k.agc arg b)
        (w_setting-IsClock k.agc arg b)
  mclk-regdebug_ioctl reg_r_smsc9115 arg b =
      unchanged k.config_smsc91xx b (r_register k k.lan arg b) (mclk-r_register k.lan arg b)
  mclk-regdebug_ioctl reg_w_smsc9115 arg b =
      unchanged k.config_smsc91xx b (w_register k true k.lan arg b)
        (mclk-w_register true k.lan arg b)
  mclk-regdebug_ioctl reg_r_smsc9115_mac arg b =
      unchanged k.config_smsc91xx b (r_register k k.mac arg b) (mclk-r_register k.mac arg b)
  mclk-regdebug_ioctl reg_w_smsc9115_mac arg b =
      unchanged k.config_smsc91xx b (w_register k false k.mac arg b)
        (mclk-w_register false k.mac arg b)
  mclk-regdebug_ioctl stim_pm_suspend arg b = refl
  mclk-regdebug_ioctl stim_pm_resume arg b = refl
  mclk-regdebug_ioctl no_case arg b = refl
