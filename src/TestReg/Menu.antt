-- ===== src/TestReg/Menu.antt =====
-- testreg.c: the menus of the program and its `main`.
use gest_aqua.Prelude.{Bool, List, Option, [], if◌then◌else◌, length, ltb, none, not, some, u32}
use gest_aqua.Prelude.{ℕ, ◌++◌, ◌==◌, ◌>>=◌, ◌∷◌}
use gest_aqua.RegDebug.{Board, Platform, StimDebugReg}
use gest_aqua.RegDebug.Handler.{no_case, reg_r_l_imx, reg_r_vs6624, reg_w_l_imx, reg_w_vs6624}
use gest_aqua.TestReg.{Line, choix_non_disponible, erreur_choix, erreur_ecriture, erreur_lecture}
use gest_aqua.TestReg.{first_of, valeur}
use gest_aqua.TestReg.Kinds.{Video, use_ligne_cmd}

-- What `scanf` reads at one turn of the menu: the choices, and the numbers, each `none` when it
-- reads none. `q` ends the menu.
pub record Typed : Type 0 where
  pub menu : ℕ
  pub choix : ℕ
  pub registre : Option ℕ
  pub nombre : Option ℕ

abbrev pub or_else : Option ℕ → ℕ → ℕ
or_else none d = d
or_else (some n) d = u32 n

module _ {S : Type 0} (k : Platform S) (junk : ℕ) where
  -- The structure before the call, for `r`, and for `w`.
  abbrev pub asked : Typed → StimDebugReg
  asked t = record { registre = or_else t.registre 0; valeur_read = 0; valeur_write = junk }

  abbrev pub given : Typed → StimDebugReg
  given t = record (asked t) { valeur_write = or_else t.nombre junk }

  -- `AccesRegImx` and `AccesCapteurVideo`
  unfoldable pub acces_reg_imx : Typed → Board S → Board S × List Line
  acces_reg_imx t b =
      if t.choix == 114
      then first_of k (reg_r_l_imx ∷ []) erreur_lecture (asked t) b
      else if t.choix == 119
      then first_of k (reg_w_l_imx ∷ []) erreur_ecriture (given t) b
      else (b, erreur_choix t.choix ∷ valeur 0 0 ∷ [])

  unfoldable pub acces_capteur_video : Typed → Board S → Board S × List Line
  acces_capteur_video t b =
      if t.choix == 114
      then first_of k (no_case ∷ reg_r_vs6624 ∷ []) erreur_lecture (asked t) b
      else if t.choix == 119
      then first_of k (no_case ∷ reg_w_vs6624 ∷ []) erreur_ecriture (given t) b
      else (b, erreur_choix t.choix ∷ valeur 0 0 ∷ [])

  -- `UseMenu` on what is typed; `none` is a menu that is never left.
  unfoldable pub use_menu : List Typed → Board S → Option (Board S × List Line)
  use_menu [] b = none
  use_menu (t ∷ ts) b =
      if t.menu == 113
      then some (b, [])
      else let (b', lines) =
          if t.menu == 105
          then acces_reg_imx t b
          else if t.menu == 118
          then acces_capteur_video t b
          else (b, choix_non_disponible ∷ []) in
        use_menu ts b' >>= λ (b'', more). some (b'', lines ++ more)

-- `main`; `found` is that the driver's file opens.
unfoldable pub main :
    {S : Type 0}
    → Platform S
    → Video S
    → (List ℕ → ℕ)
    → Bool
    → ℕ
    → List Typed
    → List (List ℕ)
    → Board S
    → Option (Board S × List Line)
main k video strtoul found junk typed argv b =
    if not found
    then some (b, [])
    else if ltb 1 (length argv)
    then use_ligne_cmd k video strtoul 46 junk argv b
    else use_menu k junk typed b
