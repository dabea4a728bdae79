-- ===== src/StimPm/Loaded.antt =====
-- stim_pm.c: what the loading of the driver leaves in the kernel.
use gest_aqua.Prelude.{Bool, arith, eq_ℤ, false, if◌then◌else◌, negsuc, not, pos, true, ℤ, ◌&&◌}
use gest_aqua.Prelude.{◌≡◌, ◌⊎◌}
use gest_aqua.CharDevice.{Replies, register, unregister}
use gest_aqua.StimPm.{PowerReplies, StimPm, register_pm, stim_pm_exit, stim_pm_init}

-- Nothing of the character device is registered, nor the interrupt.
abbrev pub IsChrFree : StimPm → Type 0
IsChrFree c =
    (c.dev.major ≡ pos 0)
    × (c.dev.class_made ≡ false)
    × (c.dev.device_made ≡ false)
    × (c.irq ≡ false)

abbrev pub IsPlatform : Bool → StimPm → Type 0
IsPlatform b c = (c.platform_device ≡ b) × (c.platform_driver ≡ b)

-- Whether the three calls for the character device succeed, and what `stim_pm_init` is to return.
abbrev pub chr_ok : Replies → Bool
chr_ok a = not (eq_ℤ a.major (pos 0)) && (a.class_ok && a.device_ok)

abbrev pub ret_of : PowerReplies → ℤ
ret_of a =
    if a.platform_device_ok && not a.platform_driver_ok
    then negsuc 18
    else if chr_ok a.chrdev && a.irq_ok
    then pos 0
    else negsuc 0

stim_pm_init-left :
    (a : PowerReplies) (c : StimPm)
    → IsChrFree c
    → IsPlatform false c
    → let (c', ret) = stim_pm_init a c in
      ((ret ≡ negsuc 18) × (a.platform_driver_ok ≡ false) × IsChrFree c' × IsPlatform false c')
      ⊎ ((ret ≡ negsuc 0) × IsChrFree c' × IsPlatform a.platform_device_ok c'
          ⊎ (ret ≡ pos 0)
            × (c'.dev.device_made ≡ true)
            × (c'.irq ≡ true)
            × IsPlatform a.platform_device_ok c'
            × IsChrFree (stim_pm_exit c')
            × IsPlatform false (stim_pm_exit c'))
unfolding stim_pm_init register_pm stim_pm_exit register unregister
stim_pm_init-left a c free none_yet = ground arith

stim_pm_init-ret_of : (a : PowerReplies) (c : StimPm) → (stim_pm_init a c).1 ≡ ret_of a
unfolding stim_pm_init register_pm register
stim_pm_init-ret_of a c = ground arith

-- From a state in which nothing is registered, `stim_pm_init` returns -19 exactly when the platform
-- device is granted and its driver refused; else 0 when the character device and the interrupt are
-- granted, and -1 when one of them is refused. With -19 it leaves nothing registered. With -1 it leaves
-- neither the character device nor the interrupt, but the platform device and driver stay registered,
-- unless the device was refused. With 0 it leaves the character device and the interrupt, and the
-- platform device and driver unless the device was refused; `stim_pm_exit` then takes everything away.
pub stim_pm_init_lem :
    (a : PowerReplies) (c : StimPm)
    → IsChrFree c
    → IsPlatform false c
    → let (c', ret) = stim_pm_init a c in
      (ret ≡ ret_of a)
      × (((ret ≡ negsuc 18) × (a.platform_driver_ok ≡ false) × IsChrFree c' × IsPlatform false c')
          ⊎ ((ret ≡ negsuc 0) × IsChrFree c' × IsPlatform a.platform_device_ok c'
              ⊎ (ret ≡ pos 0)
                × (c'.dev.device_made ≡ true)
                × (c'.irq ≡ true)
                × IsPlatform a.platform_device_ok c'
                × IsChrFree (stim_pm_exit c')
                × IsPlatform false (stim_pm_exit c')))
stim_pm_init_lem a c free none_yet = (stim_pm_init-ret_of a c, stim_pm_init-left a c free none_yet)
