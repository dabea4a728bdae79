-- ===== src/Tests/RegTools.antt =====
-- The theorems on the register driver, its program and the power management, on a hardware whose
-- registers hold what is stored in them, and whose clock has the multiples of 7 MHz.
use gest_aqua.Prelude.{List, Option, [], arith, assign, false, find, length, negsuc, none, pos}
use gest_aqua.Prelude.{refl, some, true, ℕ, ◌*◌, ◌+◌, ◌/◌, ◌∷◌, ◌≡◌, ◌⊎◌}
use gest_aqua.RegDebug.{Board, Camera, Platform, Registers, Setting, StimDebugReg}
use gest_aqua.RegDebug.Clock.{IsFirst, set_mclk_rate, set_mclk_rate_lem}
use gest_aqua.RegDebug.Handler.{r_setting, reg_r_ov9655_agc}
use gest_aqua.RegDebug.Handler.{regdebug_ioctl}
use gest_aqua.RegDebug.Replied.{mac_bank}
use gest_aqua.RegDebug.Running.{mclk-regdebug_ioctl}
use gest_aqua.StimPm.{PowerReplies, StimPm, stim_pm_exit, stim_pm_init}
use gest_aqua.StimPm.Loaded.{IsChrFree, IsPlatform, stim_pm_init_lem}
use gest_aqua.TestReg.{Line, sweep, valeur}
use gest_aqua.TestReg.Kinds.{Video}
use gest_aqua.TestReg.Menu.{main}
use gest_aqua.TestReg.Shown.{main-write_reg_line, write_reg_line}
use gest_aqua.TestReg.Swept.{main-sweep, shown}

abbrev Cells : Type 0
Cells = List (ℕ × ℕ)

abbrev cell : Option ℕ → ℕ
cell none = 0
cell (some v) = v

abbrev cells : Registers Cells
cells = record { load = λ r s. (s, cell (find r s)); store = λ r v s. assign r v s }

-- A camera that takes what is written and whose readings give 0, and a setting that refuses.
abbrev camera : Camera Cells
camera = record { read_reg = λ r v s. (s, pos 0, 7); write_reg = λ r v s. (s, pos 0) }

abbrev setting : Setting Cells
setting = record { get_value = λ v s. (s, negsuc 0, v); set_value = λ v s. (s, negsuc 0) }

abbrev platform : Platform Cells
platform = record {
  config_vs6624 = true;
  config_ov9655 = true;
  config_smsc91xx = true;
  clk_round_rate = λ r s. (r + 6999999) / 7000000 * 7000000;
  clk_set_rate = λ r s. s;
  ipu_csi_enable_mclk = λ on s. s;
  vs6624 = camera;
  ov9655 = camera;
  aec = setting;
  agc = setting;
  imx = cells;
  lan = cells;
  mac = cells;
  pm_suspend = λ s. s;
}

abbrev video : Video Cells
video = record {
  found = false;
  set_aec = λ v s. (s, pos 0);
  get_aec = λ v s. (s, pos 0, v);
  set_agc = λ v s. (s, pos 0);
  get_agc = λ v s. (s, pos 0, v);
}

abbrev still : Board Cells
still = record { hw = []; rate = 0; mclk = false }

abbrev asked : StimDebugReg
asked = record { registre = 4; valeur_read = 0; valeur_write = 300 }

set_mclk_rate_lem_example :
    let b' = set_mclk_rate platform 12000000 still in
    IsFirst (λ r. (r + 6999999) / 7000000 * 7000000) 12000000 0 7000000
    × (b'.hw ≡ [])
    × (b'.mclk ≡ false)
unfolding set_mclk_rate
set_mclk_rate_lem_example = set_mclk_rate_lem platform 12000000 still

mclk-regdebug_ioctl_example :
    (regdebug_ioctl platform reg_r_ov9655_agc (some asked) still).0.mclk ≡ true
unfolding regdebug_ioctl r_setting
mclk-regdebug_ioctl_example = mclk-regdebug_ioctl platform reg_r_ov9655_agc (some asked) still

main-write_reg_line_example :
    main platform video
      (λ s. length s)
      true
      9
      []
      ([] ∷ write_reg_line 109 (49 ∷ []) (50 ∷ 51 ∷ []))
      still
    ≡ some (record still { hw = (1, 2) ∷ [] }, valeur 1 0 ∷ [])
main-write_reg_line_example =
    main-write_reg_line platform (λ s. length s) video mac_bank 9 [] [] (49 ∷ []) (50 ∷ 51 ∷ [])
      still refl refl refl

main-sweep_example :
    let over : Option (Board Cells × List Line) = some (still, shown cells.load 45 0x53fc0000 []) in
    (sweep platform 50 (record asked { registre = 0x53fc0000 }) still ≡ over)
    × (main platform video (λ s. 0) true 9 [] ([] ∷ (45 ∷ 120 ∷ []) ∷ []) still ≡ over)
main-sweep_example = main-sweep platform video (λ s. 0) 50 9 [] [] asked still (omega arith)

abbrev none_loaded : StimPm
none_loaded = record {
  dev = record { major = pos 0; class_made = false; device_made = false };
  platform_device = false;
  platform_driver = false;
  irq = false;
}

-- Everything is granted but the interrupt.
abbrev no_irq : PowerReplies
no_irq = record {
  platform_device_ok = true;
  platform_driver_ok = true;
  chrdev = record { major = pos 250; class_ok = true; device_ok = true };
  irq_ok = false;
}

stim_pm_init_lem_example :
    let (c', ret) = stim_pm_init no_irq none_loaded in
    (ret ≡ negsuc 0)
    × (((ret ≡ negsuc 18) × (true ≡ false) × IsChrFree c' × IsPlatform false c')
        ⊎ ((ret ≡ negsuc 0) × IsChrFree c' × IsPlatform true c'
            ⊎ (ret ≡ pos 0)
              × (c'.dev.device_made ≡ true)
              × (c'.irq ≡ true)
              × IsPlatform true c'
              × IsChrFree (stim_pm_exit c')
              × IsPlatform false (stim_pm_exit c')))
stim_pm_init_lem_example = stim_pm_init_lem no_irq none_loaded (refl, refl, refl, refl) (refl, refl)
