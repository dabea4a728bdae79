-- ===== src/TestReg.antt =====
-- driver linux/exemple/testreg.c: the program that reads and writes registers through the driver of
-- regdebug.c, from its command line or from menus. A string is the list of its characters.
pub mod Kinds
pub mod Menu
pub mod Swept
pub mod Shown
use gest_aqua.Prelude.{Bool, List, Option, [], false, if◌then◌else◌, ltb, ltb_ℤ, none, pos, some}
use gest_aqua.Prelude.{suc, true, u32, zero, ℕ, ℤ, ◌+◌, ◌==◌, ◌>>=◌, ◌∷◌}
use gest_aqua.RegDebug.{Board, Platform, StimDebugReg}
use gest_aqua.RegDebug.Handler.{RegIoctl, reg_r_l_imx, regdebug_ioctl}

-- The variables of `UseLigneCmd`; `kind` is `none` until an option sets `Type`.
pub record Demand : Type 0 where
  pub reg : StimDebugReg
  pub i : ℕ
  pub ecriture : Bool
  pub clear : Bool
  pub kind : Option ℕ

-- One argument: an option, or a number that `strtoul` reads, the first for the register and the
-- second for the value. The character after a dash alone is the 0 at the end of the string.
abbrev pub read_option : ℕ → Demand → Demand
read_option l d =
    if l == 114
    then record d { ecriture = false }
    else if l == 119
    then record d { ecriture = true }
    else if l == 99
    then record d { clear = true; ecriture = true }
    else record d { kind = some l }

abbrev pub read_number : ℕ → Demand → Demand
read_number n d =
    if d.i == 1
    then record d { reg = record d.reg { registre = n }; i = 2 }
    else if d.i == 2
    then record d { reg = record d.reg { valeur_write = n }; i = 3 }
    else record d { i = d.i + 1 }

module _ (strtoul : List ℕ → ℕ) where
  unfoldable pub read_arg : List ℕ → Demand → Demand
  read_arg [] d = read_number (u32 (strtoul [])) d
  read_arg (c ∷ []) d = if c == 45 then read_option 0 d else read_number (u32 (strtoul (c ∷ []))) d
  read_arg (c ∷ l ∷ s) d =
      if c == 45 then read_option l d else read_number (u32 (strtoul (c ∷ l ∷ s))) d

  -- The loop on the arguments.
  unfoldable pub read_args : List (List ℕ) → Demand → Demand
  read_args [] d = d
  read_args (w ∷ ws) d = read_args ws (read_arg w d)

-- What the program prints, but for its prompts, its menus and what goes to the standard error. The
-- number of an error of `-i` is the -1 of the C library's `ioctl`.
pub data Line : Type 0 where
  registre_demande : ℕ → Line
  erreur_ecriture erreur_lecture erreur_clear : Line
  valeur : ℕ → ℕ → Line
  erreur_choix : ℕ → Line
  choix_non_disponible : Line

module _ {S : Type 0} (k : Platform S) where
  -- A call of the driver's `ioctl` with the address of a structure.
  unfoldable pub call : RegIoctl → StimDebugReg → Board S → Board S × ℤ × StimDebugReg
  call cmd r b =
      let (b', ret, reply) = regdebug_ioctl k cmd (some r) b in
      (b', ret, elim reply [ none ↦ r | some r' ↦ r' ])

  -- Calls one after the other, each made when the one before fails; the last one's error is told.
  unfoldable pub first_of : List RegIoctl → Line → StimDebugReg → Board S → Board S × List Line
  first_of [] err r b = (b, err ∷ [])
  first_of (cmd ∷ cmds) err r b =
      let (b', ret, r') = call cmd r b in
      let others = first_of cmds err r' b' in
      if ltb_ℤ ret (pos 0) then others else (b', valeur r'.registre r'.valeur_read ∷ [])

  -- The loop that reads a register `n` times, until an error.
  unfoldable pub read_again : ℕ → RegIoctl → StimDebugReg → Board S → Board S × List Line
  read_again zero cmd r b = (b, [])
  read_again (suc n) cmd r b =
      let (b', ret, r') = call cmd r b in
      let others = read_again n cmd r' b' in
      if ltb_ℤ ret (pos 0) then (b', erreur_ecriture ∷ []) else others

  -- The loop on the registers from 0x53fc0000 on, on fuel; `none` is no fuel left.
  unfoldable pub sweep : ℕ → StimDebugReg → Board S → Option (Board S × List Line)
  sweep zero r b = none
  sweep (suc fuel) r b =
      let (b', ret, r') = call reg_r_l_imx (record r { valeur_read = 0 }) b in
      let others = sweep fuel (record r' { registre = u32 (r'.registre + 4) }) b' in
      if ltb r.registre 0x53fc00b4
      then (do
        (b'', lines) ← others
        some (b'', if ltb_ℤ ret (pos 0) then lines else valeur r'.registre r'.valeur_read ∷ lines))
      else some (b, [])
