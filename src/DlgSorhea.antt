-- ===== src/DlgSorhea.antt =====
-- driver linux/exemple/dlg_i2c_sorhea.c: the program that gives one command of its command line to
-- the PowerCam driver. A string is the list of its characters, without the 0 at its end.
pub mod CommandLine
pub mod Written
use gest_aqua.Prelude.{Bool, List, Option, [], bit_or, drop, false, get_or, if◌then◌else◌, leb_ℤ}
use gest_aqua.Prelude.{ltb_ℤ, negsuc, none, not, pattern_of, pos, some, true, u8, ℕ, ℤ, ◌&&◌}
use gest_aqua.Prelude.{◌*◌, ◌==◌, ◌>>=◌, ◌∷◌}
use gest_aqua.PowerCam.{I2c, Kernel, PowerCam, to_char}
use gest_aqua.PowerCam.Device.{open_file, release_file}
use gest_aqua.PowerCam.Ioctl.{Ioctl, get_cmd, get_val_bouton_g, ioctl, set_cmd, set_en_trame_vie}

-- The variables of `UseLigneCmd`.
pub record Options : Type 0 where
  pub ecriture : Bool
  pub uc_cmd : ℕ
  pub uc_add : ℕ
  pub uc_val : ℕ
  pub trame_vie : Bool

abbrev pub defaults : Options
defaults = record { ecriture = false; uc_cmd = 0; uc_add = 0; uc_val = 0; trame_vie = true }

-- What the first two characters of an argument say.
pub data Switch : Type 0 where
  opt_r opt_w opt_c opt_a opt_v opt_t no_opt : Switch

-- The `switch` on `argv[0][1]`, and the test of `**argv` before it.
abbrev pub letter : ℕ → Switch
letter n =
    if n == 114
    then opt_r
    else if n == 119
    then opt_w
    else if n == 99
    then opt_c
    else if n == 97
    then opt_a
    else if n == 118
    then opt_v
    else if n == 116
    then opt_t
    else no_opt

unfoldable pub switch_of : List ℕ → Switch
switch_of (d ∷ l ∷ others) = if d == 45 then letter l else no_opt
switch_of _ = no_opt

-- `strtoul (s, &endptr, 16)` is a parameter.
module _ (strtoul : List ℕ → ℕ) where
  -- The loop of `UseLigneCmd` on the arguments; `none` is a call of `strtoul` on the null pointer
  -- that follows the last argument.
  unfoldable pub parse : Options → List (List ℕ) → Option Options
  parse o [] = some o
  parse o (w ∷ []) = elim (switch_of w) [
    | opt_r ↦ some (record o { ecriture = false })
    | opt_w ↦ some (record o { ecriture = true })
    | opt_t ↦ some (record o { trame_vie = false })
    | no_opt ↦ some o
    | _ ↦ none
  ]
  parse o (w ∷ v ∷ ws) = elim (switch_of w) [
    | opt_r ↦ parse (record o { ecriture = false }) (v ∷ ws)
    | opt_w ↦ parse (record o { ecriture = true }) (v ∷ ws)
    | opt_c ↦ parse (record o { uc_cmd = u8 (strtoul v) }) ws
    | opt_a ↦ parse (record o { uc_add = u8 (strtoul v) }) ws
    | opt_v ↦ parse (record o { uc_val = u8 (strtoul v) }) ws
    | opt_t ↦ parse (record o { trame_vie = false }) (v ∷ ws)
    | no_opt ↦ parse o (v ∷ ws)
  ]

-- What the program prints: the line of the opening with what `open` returns, and the lines of
-- `UseLigneCmd`.
pub data Printed : Type 0 where
  ouvert : ℤ → Printed
  erreur_trame_vie erreur_ecriture : Printed
  erreur_lecture : ℤ → Printed
  valeur : ℕ → ℕ → ℕ → Printed

-- What `%x` shows of a `char`.
abbrev pub hex_of : Kernel → ℕ → ℕ
hex_of k b = pattern_of 32 (to_char k (pos b))

module _ {S : Type 0} (i2c : I2c S) (k : Kernel) (jiffies garbage : ℕ) where
  -- The driver's `ioctl` on the open file; for a negative result the program gets -1.
  abbrev pub call : Ioctl → PowerCam S → Option (PowerCam S × ℤ × List ℕ)
  call cmd c = ioctl i2c k true jiffies garbage cmd c

  -- The three ends of `UseLigneCmd`; `junk` is what the stack holds of `cBuffer` after the bytes
  -- that the code sets. `none` is a run over the end of `cBuffer` in the driver.
  unfoldable pub stop_trame_vie : PowerCam S → Option (PowerCam S × List Printed)
  stop_trame_vie c = do
    (c', ret, reply) ← call (set_en_trame_vie (some 0)) c
    some (c', if ltb_ℤ ret (pos 0) then erreur_trame_vie ∷ [] else [])

  unfoldable pub write_cmd : List ℕ → Options → PowerCam S → Option (PowerCam S × List Printed)
  write_cmd junk o c = do
    (c', ret, reply) ← call (set_cmd (some (o.uc_cmd, o.uc_add ∷ o.uc_val ∷ 0 ∷ junk, 2))) c
    some (c', if ltb_ℤ ret (pos 0) then erreur_ecriture ∷ [] else [])

  unfoldable pub read_bouton : Options → PowerCam S → Option (PowerCam S × List Printed)
  read_bouton o c = do
    (c', ret, reply) ← call get_val_bouton_g c
    let shown = valeur o.uc_cmd o.uc_add (hex_of k (get_or reply 0 0))
    some (c', (if ltb_ℤ ret (pos 0) then erreur_lecture (negsuc 0) else shown) ∷ [])

  -- The first byte of the buffer is the third of the structure.
  unfoldable pub read_register : List ℕ → Options → PowerCam S → Option (PowerCam S × List Printed)
  read_register junk o c = do
    (c', ret, reply) ← call (get_cmd (some (bit_or (o.uc_cmd * 256) o.uc_add, 0 ∷ junk, 1))) c
    let shown = valeur o.uc_cmd o.uc_add (hex_of k (get_or reply 2 0))
    some (c', (if ltb_ℤ ret (pos 0) then erreur_lecture (negsuc 0) else shown) ∷ [])

  -- `UseLigneCmd`, the arguments having been read.
  unfoldable pub use_options : List ℕ → Options → PowerCam S → Option (PowerCam S × List Printed)
  use_options junk o c =
      if not o.trame_vie
      then stop_trame_vie c
      else if o.ecriture
      then write_cmd junk o c
      else if (o.uc_cmd == 150) && (o.uc_add == 80)
      then read_bouton o c
      else read_register junk o c

  -- `main`, with what `open` returns: the arguments follow the name of the program.
  unfoldable pub main :
      (List ℕ → ℕ) → ℤ → List ℕ → List (List ℕ) → PowerCam S → Option (PowerCam S × List Printed)
  main strtoul fd junk argv c =
      if leb_ℤ (pos 0) fd
      then (do
        o ← parse strtoul defaults (drop 1 argv)
        (c', printed) ← use_options junk o (open_file c).0
        some ((release_file c').0, ouvert fd ∷ printed))
      else some (c, ouvert fd ∷ [])
