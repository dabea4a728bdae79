-- ===== src/TestReg/Shown.antt =====
-- testreg.c with regdebug.c: what the program shows after it has written a register.
use gest_aqua.Prelude.{Bool, List, [], false, none, refl, some, true, u32, ℕ, ◌==◌, ◌∷◌, ◌≡◌}
use gest_aqua.PowerCam.Ring.{read}
use gest_aqua.RegDebug.{Board, Platform}
use gest_aqua.RegDebug.Handler.{regdebug_ioctl, w_register}
use gest_aqua.RegDebug.Replied.{Bank, imx_bank, lan_bank, mac_bank, registers_of}
use gest_aqua.TestReg.{Demand, call, first_of, read_arg, read_args, read_number, read_option}
use gest_aqua.TestReg.{valeur}
use gest_aqua.TestReg.Kinds.{Video, kind_imx, kind_mac, kind_net, use_kind, use_ligne_cmd}
use gest_aqua.TestReg.Menu.{Typed, main}

abbrev pub is_option : List ℕ → Bool
is_option [] = false
is_option (c ∷ s) = c == 45

read_arg_number :
    (strtoul : List ℕ → ℕ) (w : List ℕ) (d : Demand)
    → is_option w ≡ false
    → read_arg strtoul w d ≡ read_number (u32 (strtoul w)) d
unfolding read_arg
read_arg_number strtoul [] d h = refl
read_arg_number strtoul (c ∷ []) d h = rw h refl
read_arg_number strtoul (c ∷ l ∷ s) d h = rw h refl

read_arg_option :
    (strtoul : List ℕ → ℕ) (l : ℕ) (d : Demand) → read_arg strtoul (45 ∷ l ∷ []) d ≡ read_option l d
unfolding read_arg
read_arg_option strtoul l d = refl

-- The command line that asks to write a register of a kind: `-w -KIND REG VAL`.
abbrev pub write_reg_line : ℕ → List ℕ → List ℕ → List (List ℕ)
write_reg_line kind reg val = (45 ∷ 119 ∷ []) ∷ (45 ∷ kind ∷ []) ∷ reg ∷ val ∷ []

-- The letter of each kind of registers, and what the program shows of the value read back.
abbrev pub kind_of : Bank → ℕ
kind_of imx_bank = 105
kind_of lan_bank = 110
kind_of mac_bank = 109

abbrev pub shown_of : Bank → ℕ → ℕ
shown_of mac_bank val = 0
shown_of _ val = u32 val

module _ {S : Type 0} (k : Platform S) (strtoul : List ℕ → ℕ) where
  abbrev pub demand : ℕ → List ℕ → List ℕ → Demand
  demand kind reg val = record {
    reg = record {
      registre = u32 (strtoul reg);
      valeur_read = 0;
      valeur_write = u32 (strtoul val);
    };
    i = 3;
    ecriture = true;
    clear = false;
    kind = some kind;
  }

  -- `i` at its start, and the numbers given.
  abbrev pub at_start : ℕ → Demand
  at_start junk = record {
    reg = record { registre = 0; valeur_read = 0; valeur_write = junk };
    i = 1;
    ecriture = false;
    clear = false;
    kind = none;
  }

  read_args-write_reg_line :
      (kind junk : ℕ) (reg val : List ℕ)
      → is_option reg ≡ false
      → is_option val ≡ false
      → ((d : Demand) → read_option kind d ≡ record d { kind = some kind })
      → read_args strtoul (write_reg_line kind reg val) (at_start junk) ≡ demand kind reg val
  unfolding read_args
  read_args-write_reg_line kind junk reg val h h' sets =
      let d1 = record (at_start junk) { ecriture = true } in
      let d2 = record d1 { kind = some kind } in
      let d3 = read_number (u32 (strtoul reg)) d2 in
      rw
        (
          read_arg_option strtoul 119 (at_start junk),
          read_arg_option strtoul kind d1,
          sets d1,
          read_arg_number strtoul reg d2 h,
          read_arg_number strtoul val d3 h',
        )
        refl

  -- The program run with `-w`, a kind of registers, a register and a value, on a driver with the
  -- network chip configured, writes the register and shows one line: the value that it reads back
  -- for the processor and the network chip, but 0 for the MAC, whatever is read back.
  pub main-write_reg_line :
      (video : Video S) (bank : Bank) (junk : ℕ) (typed : List Typed) (name reg val : List ℕ)
      (b : Board S)
      → k.config_smsc91xx ≡ true
      → is_option reg ≡ false
      → is_option val ≡ false
      → let r = registers_of k bank in
        let n = u32 (strtoul reg) in
        let (hw, read) = r.load n (r.store n (u32 (strtoul val)) b.hw) in
        main k video strtoul true junk typed (name ∷ write_reg_line (kind_of bank) reg val) b
        ≡ some (record b { hw = hw }, valeur n (shown_of bank read) ∷ [])
  unfolding main use_ligne_cmd use_kind kind_imx kind_net kind_mac first_of call regdebug_ioctl
      w_register
  main-write_reg_line video imx_bank junk typed name reg val b config h h' =
      rw (read_args-write_reg_line 105 junk reg val h h' (λ d. refl)) refl
  main-write_reg_line video lan_bank junk typed name reg val b config h h' =
      rw (read_args-write_reg_line 110 junk reg val h h' (λ d. refl), config) refl
  main-write_reg_line video mac_bank junk typed name reg val b config h h' =
      rw (read_args-write_reg_line 109 junk reg val h h' (λ d. refl), config) refl
