-- ===== src/StimPm.antt =====
-- driver linux/exemple/stim_drivers/stim_pm.c: the driver of the power management, with its
-- character device, its platform driver and the interrupt that wakes the board up. `S` is the state
-- of the hardware and of the processes.
pub mod Loaded
use gest_aqua.Prelude.{Bool, List, [], eq_ℤ, false, if◌then◌else◌, negsuc, not, pos, suc, true}
use gest_aqua.Prelude.{u8, zero, ℕ, ℤ, ◌∷◌}
use gest_aqua.CharDevice.{CharDevice, Replies, register, unregister}

-- The functions that the driver calls, and the codes of headers that are not in the repository:
-- `call_usermodehelper_keys` gets whether the script is the one that suspends, and whether to wait
-- for its end.
pub record PowerKernel (S : Type 0) : Type 0 where
  pub pm_suspend : S → S
  pub read_cs4 : S → S
  pub gpio_clear_int : S → S
  pub run_script : Bool → Bool → S → S
  pub sorhea_send : List ℕ → S → S
  pub get_etat : ℕ
  pub set_veille : ℕ
  pub set_on : ℕ

-- The commands of `stim_pm_ioctl`, and all others.
pub data PowerIoctl : Type 0 where
  stim_set_veille stim_set_off stim_set_on stim_unknown : PowerIoctl

-- The reads of the interrupt, `n` of them.
abbrev pub read_times : {S : Type 0} → (S → S) → ℕ → S → S
read_times f zero s = s
read_times f (suc n) s = read_times f n (f s)

module _ {S : Type 0} (k : PowerKernel S) where
  -- `Reveil_irq`
  unfoldable pub reveil_irq : S → S
  reveil_irq s = k.gpio_clear_int (read_times k.read_cs4 1000 s)

  -- `stim_pm_ioctl`
  unfoldable pub stim_pm_ioctl : PowerIoctl → S → S × ℤ
  stim_pm_ioctl stim_set_veille s = (k.pm_suspend s, pos 0)
  stim_pm_ioctl stim_set_off s = (s, pos 0)
  stim_pm_ioctl stim_set_on s = (s, pos 0)
  stim_pm_ioctl stim_unknown s = (s, negsuc 21)

  -- `stim_pm_suspend` and `stim_pm_resume`, which the kernel calls on its way down and up.
  unfoldable pub stim_pm_suspend : S → S × ℤ
  stim_pm_suspend s =
      (k.sorhea_send (k.get_etat ∷ u8 k.set_veille ∷ []) (k.run_script true true s), pos 0)

  unfoldable pub stim_pm_resume : S → S × ℤ
  stim_pm_resume s =
      (k.sorhea_send (k.get_etat ∷ u8 k.set_on ∷ []) (k.run_script false false s), pos 0)

-- `stim_pm_open` and `stim_pm_release`
unfoldable pub stim_pm_open : ℤ
stim_pm_open = pos 0

unfoldable pub stim_pm_release : ℤ
stim_pm_release = pos 0

-- What the driver has registered with the kernel.
pub record StimPm : Type 0 where
  pub dev : CharDevice
  pub platform_device : Bool
  pub platform_driver : Bool
  pub irq : Bool

-- What the registrations answer.
pub record PowerReplies : Type 0 where
  pub platform_device_ok : Bool
  pub platform_driver_ok : Bool
  pub chrdev : Replies
  pub irq_ok : Bool

-- The end of `stim_pm_init`, from `register_chrdev` on.
unfoldable pub register_pm : PowerReplies → StimPm → StimPm × ℤ
register_pm a c =
    let (dev, ret) = register a.chrdev c.dev in
    if not (eq_ℤ ret (pos 0))
    then (record c { dev = dev }, negsuc 0)
    else if a.irq_ok
    then (record c { dev = dev; irq = true }, pos 0)
    else (record c { dev = unregister dev }, negsuc 0)

-- `stim_pm_init`
unfoldable pub stim_pm_init : PowerReplies → StimPm → StimPm × ℤ
stim_pm_init a c =
    if a.platform_device_ok
    then if a.platform_driver_ok
      then register_pm a (record c { platform_device = true; platform_driver = true })
      else (record c { platform_device = false }, negsuc 18)
    else register_pm a c

-- `stim_pm_exit`
unfoldable pub stim_pm_exit : StimPm → StimPm
stim_pm_exit c = record {
  dev = unregister c.dev;
  platform_device = false;
  platform_driver = false;
  irq = false;
}
