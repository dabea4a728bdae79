-- ===== src/TestReg/Swept.antt =====
-- testreg.c with regdebug.c: the registers that `-x` shows.
use gest_aqua.Prelude.{List, Option, [], arith, false, ltb, refl, some, suc, true, u32, zero, ℕ}
use gest_aqua.Prelude.{◌*◌, ◌+◌, ◌<◌, ◌∷◌, ◌≡◌}
use gest_aqua.RegDebug.{Board, Platform, StimDebugReg}
use gest_aqua.RegDebug.Handler.{r_register, regdebug_ioctl}
use gest_aqua.TestReg.{Line, call, read_arg, read_args, sweep, valeur}
use gest_aqua.TestReg.Kinds.{Video, use_kind, use_ligne_cmd}
use gest_aqua.TestReg.Menu.{Typed, main}

-- The registers of the processor that are loaded, one after the other from an address on, four bytes
-- apart: the hardware after that, and the values.
module _ {S : Type 0} (load : ℕ → S → S × ℕ) where
  abbrev pub loaded : ℕ → ℕ → S → S
  loaded zero a s = s
  loaded (suc n) a s = loaded n (a + 4) (load a s).0

  abbrev pub shown : ℕ → ℕ → S → List Line
  shown zero a s = []
  shown (suc n) a s = valeur a (u32 (load a s).1) ∷ shown n (a + 4) (load a s).0

module _ {S : Type 0} (k : Platform S) where
  sweep_lem :
      (n fuel a : ℕ) (r : StimDebugReg) (b : Board S)
      → a + 4 * n ≡ 0x53fc00b4
      → n < fuel
      → sweep k fuel (record r { registre = a }) b
        ≡ some (record b { hw = loaded k.imx.load n a b.hw }, shown k.imx.load n a b.hw)
  unfolding sweep call regdebug_ioctl r_register
  sweep_lem n zero a r b e h = absurd (omega arith)
  sweep_lem zero (suc fuel) a r b e h = let t : ltb a 0x53fc00b4 ≡ false = ground arith in rw t refl
  sweep_lem (suc n) (suc fuel) a r b e h =
      let t : ltb a 0x53fc00b4 ≡ true = ground arith in
      let next : u32 (a + 4) ≡ a + 4 = omega arith in
      let (hw, val) = k.imx.load a b.hw in
      let r' : StimDebugReg = record { registre = a; valeur_read = u32 val; valeur_write = 0 } in
      rw (t, next, sweep_lem n fuel (a + 4) r' (record b { hw = hw }) (omega arith) (omega arith))
        refl

  -- The loop of `-x` ends after 45 registers with any fuel of 46 or more. It loads those from
  -- 0x53fc0000 to 0x53fc00b0, one every four bytes, each once and in this order, and nothing else;
  -- it shows each with the value loaded, in 32 bits; and the program run with `-x` does just this.
  pub main-sweep :
      (video : Video S) (strtoul : List ℕ → ℕ) (fuel junk : ℕ) (typed : List Typed) (name : List ℕ)
      (r : StimDebugReg) (b : Board S)
      → 45 < fuel
      → let load = k.imx.load in
        let over : Option (Board S × List Line) =
          some (record b { hw = loaded load 45 0x53fc0000 b.hw }, shown load 45 0x53fc0000 b.hw) in
        (sweep k fuel (record r { registre = 0x53fc0000 }) b ≡ over)
        × (main k video strtoul true junk typed (name ∷ (45 ∷ 120 ∷ []) ∷ []) b ≡ over)
  unfolding main use_ligne_cmd use_kind read_args read_arg
  main-sweep video strtoul fuel junk typed name r b h =
      let reg : StimDebugReg = record { registre = 0; valeur_read = 0; valeur_write = junk } in
      (sweep_lem 45 fuel 0x53fc0000 r b refl h, sweep_lem 45 46 0x53fc0000 reg b refl (omega arith))
