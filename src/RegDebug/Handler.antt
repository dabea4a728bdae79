-- ===== src/RegDebug/Handler.antt =====
-- regdebug.c: `regdebug_ioctl`. An argument is what `copy_from_user` reads, or `none` when it fails; a
-- reply is what `copy_to_user` writes, whose own result the code does not read. The waits after a
-- write are left out.
use gest_aqua.Prelude.{Bool, Option, eq_ℤ, false, if◌then◌else◌, leb_ℤ, negsuc, none, pos, some}
use gest_aqua.Prelude.{true, u32, u8, ℕ, ℤ, ◌%◌, ◌+◌, ◌-◌, ◌^◌}
use gest_aqua.CharDevice.{CharDevice, Replies, register, unregister}
use gest_aqua.RegDebug.{Board, Camera, Platform, Registers, Setting, StimDebugReg}
use gest_aqua.RegDebug.Clock.{enable_mclk, set_mclk_rate}

-- The commands that have a case, and all others. ISP1504 and L2 have none, nor has the OV7720.
pub data RegIoctl : Type 0 where
  reg_r_l_imx reg_w_l_imx : RegIoctl
  reg_r_vs6624 reg_w_vs6624 reg_r_ov9655 reg_w_ov9655 : RegIoctl
  reg_r_ov9655_aec reg_w_ov9655_aec reg_r_ov9655_agc reg_w_ov9655_agc : RegIoctl
  reg_r_smsc9115 reg_w_smsc9115 reg_r_smsc9115_mac reg_w_smsc9115_mac : RegIoctl
  stim_pm_suspend stim_pm_resume no_case : RegIoctl

abbrev pub einval : ℤ
einval = negsuc 21

-- What the call of `ioctl` gives: the board, the value returned, and what the application gets.
abbrev pub Outcome : Type 0 → Type 0
Outcome S = Board S × ℤ × Option StimDebugReg

-- An `unsigned int` after a byte is stored at its address, its lowest byte first.
abbrev pub low_byte : ℕ → ℕ → ℕ
low_byte n b = n - n % 256 + u8 b

abbrev pub is_some : {A : Type 0} → Option A → Bool
is_some none = false
is_some (some x) = true

module _ {S : Type 0} (k : Platform S) where
  -- `REG_R_VS6624` and `REG_R_OV9655`
  unfoldable pub r_camera : Camera S → ℕ → Option StimDebugReg → Board S → Outcome S
  r_camera cam mclk none b = (set_mclk_rate k mclk b, einval, none)
  r_camera cam mclk (some a) b =
      let b1 = enable_mclk k true (set_mclk_rate k mclk b) in
      let (hw, ret, val) = cam.read_reg (a.registre % 2 ^ 16) (u8 a.valeur_read) b1.hw in
      let b2 = record b1 { hw = hw } in
      let a' = record a { valeur_write = 0; valeur_read = low_byte a.valeur_read val } in
      if leb_ℤ (pos 0) ret then (enable_mclk k false b2, pos 0, some a') else (b2, einval, none)

  -- `REG_W_VS6624` and `REG_W_OV9655`
  unfoldable pub w_camera : Camera S → ℕ → Option StimDebugReg → Board S → Outcome S
  w_camera cam mclk none b = (set_mclk_rate k mclk b, einval, none)
  w_camera cam mclk (some a) b =
      let b1 = enable_mclk k true (set_mclk_rate k mclk b) in
      let (hw, wrote) = cam.write_reg (a.registre % 2 ^ 16) (u8 a.valeur_write) b1.hw in
      let (hw', ret, val) = cam.read_reg (a.registre % 2 ^ 16) (u8 a.valeur_read) hw in
      let a' = record a { valeur_read = low_byte a.valeur_read val } in
      if leb_ℤ (pos 0) wrote
      then (
        enable_mclk k false (record b1 { hw = hw' }),
        pos 0,
        if eq_ℤ ret (pos 0) then none else some a',
      )
      else (record b1 { hw = hw }, einval, none)

  -- `REG_R_OV9655_AEC` and `REG_R_OV9655_AGC`
  unfoldable pub r_setting : Setting S → Option StimDebugReg → Board S → Outcome S
  r_setting s none b = (set_mclk_rate k 24000000 b, einval, none)
  r_setting s (some a) b =
      let b1 = enable_mclk k true (set_mclk_rate k 24000000 b) in
      let (hw, ret, val) = s.get_value 0 b1.hw in
      let b2 = record b1 { hw = hw } in
      if leb_ℤ (pos 0) ret
      then (
        enable_mclk k false b2,
        pos 0,
        some (record a { valeur_write = 0; valeur_read = val % 2 ^ 16 }),
      )
      else (b2, einval, none)

  -- `REG_W_OV9655_AEC` and `REG_W_OV9655_AGC`
  unfoldable pub w_setting : Setting S → Option StimDebugReg → Board S → Outcome S
  w_setting s none b = (set_mclk_rate k 24000000 b, einval, none)
  w_setting s (some a) b =
      let b1 = enable_mclk k true (set_mclk_rate k 24000000 b) in
      let (hw, wrote) = s.set_value (a.valeur_write % 2 ^ 16) b1.hw in
      let (hw', ret, val) = s.get_value 0 hw in
      if leb_ℤ (pos 0) wrote
      then (
        enable_mclk k false (record b1 { hw = hw' }),
        pos 0,
        if leb_ℤ (pos 0) ret then some (record a { valeur_read = val % 2 ^ 16 }) else none,
      )
      else (enable_mclk k false (record b1 { hw = hw }), einval, none)

  -- `REG_R_L_IMX`, `REG_R_SMSC9115` and `REG_R_SMSC9115_MAC`
  unfoldable pub r_register : Registers S → Option StimDebugReg → Board S → Outcome S
  r_register r none b = (b, einval, none)
  r_register r (some a) b =
      let (hw, val) = r.load a.registre b.hw in
      (record b { hw = hw }, pos 0, some (record a { valeur_write = 0; valeur_read = u32 val }))

  -- `REG_W_L_IMX`, `REG_W_SMSC9115` and `REG_W_SMSC9115_MAC`; `told` says that the code copies the
  -- value that it reads back to the application, which the last does not.
  unfoldable pub w_register : Bool → Registers S → Option StimDebugReg → Board S → Outcome S
  w_register told r none b = (b, einval, none)
  w_register told r (some a) b =
      let (hw, val) = r.load a.registre (r.store a.registre a.valeur_write b.hw) in
      (
        record b { hw = hw },
        pos 0,
        if told then some (record a { valeur_read = u32 val }) else none,
      )

  -- The cases of the switch that stand under an `#if`, with no case where the kernel is built without
  -- the chip: a camera's, its exposure's and gain's, the network chip's and its MAC's.
  abbrev pub r_vs6624 : Option StimDebugReg → Board S → Outcome S
  r_vs6624 arg b = if k.config_vs6624 then r_camera k.vs6624 12000000 arg b else (b, einval, none)

  abbrev pub w_vs6624 : Option StimDebugReg → Board S → Outcome S
  w_vs6624 arg b = if k.config_vs6624 then w_camera k.vs6624 12000000 arg b else (b, einval, none)

  abbrev pub r_ov9655 : Option StimDebugReg → Board S → Outcome S
  r_ov9655 arg b = if k.config_ov9655 then r_camera k.ov9655 24000000 arg b else (b, einval, none)

  abbrev pub w_ov9655 : Option StimDebugReg → Board S → Outcome S
  w_ov9655 arg b = if k.config_ov9655 then w_camera k.ov9655 24000000 arg b else (b, einval, none)

  abbrev pub r_ov9655_aec : Option StimDebugReg → Board S → Outcome S
  r_ov9655_aec arg b = if k.config_ov9655 then r_setting k.aec arg b else (b, einval, none)

  abbrev pub w_ov9655_aec : Option StimDebugReg → Board S → Outcome S
  w_ov9655_aec arg b = if k.config_ov9655 then w_setting k.aec arg b else (b, einval, none)

  abbrev pub r_ov9655_agc : Option StimDebugReg → Board S → Outcome S
  r_ov9655_agc arg b = if k.config_ov9655 then r_setting k.agc arg b else (b, einval, none)

  abbrev pub w_ov9655_agc : Option StimDebugReg → Board S → Outcome S
  w_ov9655_agc arg b = if k.config_ov9655 then w_setting k.agc arg b else (b, einval, none)

  abbrev pub r_smsc9115 : Option StimDebugReg → Board S → Outcome S
  r_smsc9115 arg b = if k.config_smsc91xx then r_register k.lan arg b else (b, einval, none)

  abbrev pub w_smsc9115 : Option StimDebugReg → Board S → Outcome S
  w_smsc9115 arg b = if k.config_smsc91xx then w_register true k.lan arg b else (b, einval, none)

  abbrev pub r_smsc9115_mac : Option StimDebugReg → Board S → Outcome S
  r_smsc9115_mac arg b = if k.config_smsc91xx then r_register k.mac arg b else (b, einval, none)

  abbrev pub w_smsc9115_mac : Option StimDebugReg → Board S → Outcome S
  w_smsc9115_mac arg b =
      if k.config_smsc91xx then w_register false k.mac arg b else (b, einval, none)

  -- `regdebug_ioctl`
  unfoldable pub regdebug_ioctl : RegIoctl → Option StimDebugReg → Board S → Outcome S
  regdebug_ioctl reg_r_l_imx arg b = r_register k.imx arg b
  regdebug_ioctl reg_w_l_imx arg b = w_register true k.imx arg b
  regdebug_ioctl reg_r_vs6624 arg b = r_vs6624 arg b
  regdebug_ioctl reg_w_vs6624 arg b = w_vs6624 arg b
  regdebug_ioctl reg_r_ov9655 arg b = r_ov9655 arg b
  regdebug_ioctl reg_w_ov9655 arg b = w_ov9655 arg b
  regdebug_ioctl reg_r_ov9655_aec arg b = r_ov9655_aec arg b
  regdebug_ioctl reg_w_ov9655_aec arg b = w_ov9655_aec arg b
  regdebug_ioctl reg_r_ov9655_agc arg b = r_ov9655_agc arg b
  regdebug_ioctl reg_w_ov9655_agc arg b = w_ov9655_agc arg b
  regdebug_ioctl reg_r_smsc9115 arg b = r_smsc9115 arg b
  regdebug_ioctl reg_w_smsc9115 arg b = w_smsc9115 arg b
  regdebug_ioctl reg_r_smsc9115_mac arg b = r_smsc9115_mac arg b
  regdebug_ioctl reg_w_smsc9115_mac arg b = w_smsc9115_mac arg b
  regdebug_ioctl stim_pm_suspend arg b = (record b { hw = k.pm_suspend b.hw }, pos 0, none)
  regdebug_ioctl stim_pm_resume arg b = (b, pos 0, none)
  regdebug_ioctl no_case arg b = (b, einval, none)

-- `regdebug_open` and `regdebug_release`
unfoldable pub regdebug_open : ℤ
regdebug_open = pos 0

unfoldable pub regdebug_release : ℤ
regdebug_release = pos 0

-- `regdebug_init` and `regdebug_exit`
unfoldable pub regdebug_init : Replies → CharDevice → CharDevice × ℤ
unfolding register
regdebug_init a d = register a d

unfoldable pub regdebug_exit : CharDevice → CharDevice
unfolding unregister
regdebug_exit d = unregister d
