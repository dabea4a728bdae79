-- ===== src/TestReg/Kinds.antt =====
-- testreg.c: what `UseLigneCmd` does for each kind of register.
use gest_aqua.Prelude.{Bool, List, Option, [], drop, false, if◌then◌else◌, ltb_ℤ, none, not, pos}
use gest_aqua.Prelude.{some, ℕ, ℤ, ◌==◌, ◌∷◌}
use gest_aqua.RegDebug.{Board, Platform}
use gest_aqua.RegDebug.Handler.{RegIoctl, no_case, reg_r_l_imx, reg_r_ov9655, reg_r_smsc9115}
use gest_aqua.RegDebug.Handler.{reg_r_smsc9115_mac, reg_r_vs6624, reg_w_l_imx, reg_w_ov9655}
use gest_aqua.RegDebug.Handler.{reg_w_smsc9115, reg_w_smsc9115_mac, reg_w_vs6624}
use gest_aqua.RegDebug.Handler.{stim_pm_suspend}
use gest_aqua.TestReg.{Demand, Line, call, choix_non_disponible, erreur_clear, erreur_ecriture}
use gest_aqua.TestReg.{erreur_lecture, first_of, read_again, read_args, registre_demande, sweep}
use gest_aqua.TestReg.{valeur}

-- The driver of /dev/video, which is not in the repository, on the same hardware: whether it opens,
-- and what its commands return; a reading gets what the pointer points to and says what it holds
-- after the call.
pub record Video (S : Type 0) : Type 0 where
  pub found : Bool
  pub set_aec : ℕ → S → S × ℤ
  pub get_aec : ℕ → S → S × ℤ × ℕ
  pub set_agc : ℕ → S → S × ℤ
  pub get_agc : ℕ → S → S × ℤ × ℕ

module _ {S : Type 0} (k : Platform S) (video : Video S) where
  -- A reading that shows first the register asked for.
  unfoldable pub read_shown : List RegIoctl → Demand → Board S → Board S × List Line
  read_shown cmds d b =
      let (b', lines) = first_of k cmds erreur_lecture d.reg b in
      (b', registre_demande d.reg.registre ∷ lines)

  -- `-i`, `-l` and `-u`; the last two have no case in the driver.
  unfoldable pub kind_imx : Demand → Board S → Board S × List Line
  unfolding read_shown
  kind_imx d b =
      if d.ecriture
      then first_of k (reg_w_l_imx ∷ []) erreur_ecriture d.reg b
      else read_shown (reg_r_l_imx ∷ []) d b

  unfoldable pub kind_l2 : Demand → Board S → Board S × List Line
  kind_l2 d b =
      if d.ecriture
      then first_of k (no_case ∷ []) erreur_ecriture d.reg b
      else first_of k (no_case ∷ []) erreur_lecture d.reg b

  unfoldable pub kind_usb : Demand → Board S → Board S × List Line
  unfolding read_shown
  kind_usb d b =
      if d.ecriture
      then if d.clear
        then first_of k (no_case ∷ []) erreur_clear d.reg b
        else first_of k (no_case ∷ []) erreur_ecriture d.reg b
      else read_shown (no_case ∷ []) d b

  -- `-v`: the OV7720, whose commands have no case in the driver, then the others.
  unfoldable pub kind_video : Demand → Board S → Board S × List Line
  unfolding read_shown
  kind_video d b =
      if d.ecriture
      then first_of k (no_case ∷ reg_w_vs6624 ∷ reg_w_ov9655 ∷ []) erreur_ecriture d.reg b
      else read_shown (no_case ∷ reg_r_vs6624 ∷ reg_r_ov9655 ∷ []) d b

  -- `-n` and `-m`
  unfoldable pub kind_net : Demand → Board S → Board S × List Line
  unfolding read_shown
  kind_net d b =
      if d.ecriture
      then if not d.clear
        then first_of k (reg_w_smsc9115 ∷ []) erreur_ecriture d.reg b
        else read_again k 1000 reg_r_smsc9115 d.reg b
      else read_shown (reg_r_smsc9115 ∷ []) d b

  unfoldable pub kind_mac : Demand → Board S → Board S × List Line
  kind_mac d b =
      if d.ecriture
      then if not d.clear
        then first_of k (reg_w_smsc9115_mac ∷ []) erreur_ecriture d.reg b
        else read_again k 1000 reg_r_smsc9115_mac d.reg b
      else first_of k (reg_r_smsc9115_mac ∷ []) erreur_lecture d.reg b

  -- `-a`, which prints what it reads, and `-g`, which prints after a write too. The line has no
  -- register: 0 stands for it.
  unfoldable pub kind_aec : Demand → Board S → Board S × List Line
  kind_aec d b =
      let (hw, wrote) = video.set_aec d.reg.valeur_write b.hw in
      let (hw', got, val) = video.get_aec d.reg.valeur_read b.hw in
      if not video.found
      then (b, [])
      else if d.ecriture
      then (record b { hw = hw }, if ltb_ℤ wrote (pos 0) then erreur_ecriture ∷ [] else [])
      else (
        record b { hw = hw' },
        (if ltb_ℤ got (pos 0) then erreur_lecture else valeur 0 val) ∷ [],
      )

  unfoldable pub kind_agc : Demand → Board S → Board S × List Line
  kind_agc d b =
      let (hw, wrote) = video.set_agc d.reg.valeur_write b.hw in
      let (hw', got, val) = video.get_agc d.reg.valeur_read b.hw in
      if not video.found
      then (b, [])
      else if d.ecriture
      then (
        record b { hw = hw },
        (if ltb_ℤ wrote (pos 0) then erreur_ecriture else valeur 0 d.reg.valeur_read) ∷ [],
      )
      else (
        record b { hw = hw' },
        (if ltb_ℤ got (pos 0) then erreur_lecture else valeur 0 val) ∷ [],
      )

  -- The `switch` on `Type`; `none` is a `Type` that was never set, or no fuel left for `-x`.
  unfoldable pub use_kind : ℕ → Demand → Board S → Option (Board S × List Line)
  use_kind fuel d b = elim d.kind [
    | none ↦ none
    | some t ↦
        if t == 105
        then some (kind_imx d b)
        else if t == 118
        then some (kind_video d b)
        else if t == 110
        then some (kind_net d b)
        else if t == 115
        then some ((call k stim_pm_suspend d.reg b).0, [])
        else if t == 117
        then some (kind_usb d b)
        else if t == 120
        then sweep k fuel (record d.reg { registre = 0x53fc0000 }) b
        else if t == 109
        then some (kind_mac d b)
        else if t == 97
        then some (kind_aec d b)
        else if t == 103
        then some (kind_agc d b)
        else if t == 108
        then some (kind_l2 d b)
        else some (b, choix_non_disponible ∷ [])
  ]

  -- `UseLigneCmd`; `junk` is what `ValeurWrite` holds before it is set.
  unfoldable pub use_ligne_cmd :
      (List ℕ → ℕ) → ℕ → ℕ → List (List ℕ) → Board S → Option (Board S × List Line)
  use_ligne_cmd strtoul fuel junk argv b =
      use_kind fuel
        (read_args strtoul (drop 1 argv) (record {
          reg = record { registre = 0; valeur_read = 0; valeur_write = junk };
          i = 1;
          ecriture = false;
          clear = false;
          kind = none;
        }))
        b
