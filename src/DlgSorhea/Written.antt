-- ===== src/DlgSorhea/Written.antt =====
-- dlg_i2c_sorhea.c with dlgi2c.c: a byte that the program is asked to write, on its way to the bus.
use gest_aqua.Prelude.{Bool-cases, List, [], arith, bit_xor, false, inl, inr, leb, leb_ℤ, length}
use gest_aqua.Prelude.{pos, refl, some, suc, sym, true, u8, ℕ, ◌+◌, ◌-◌, ◌<◌, ◌==◌, ◌∷◌, ◌≡◌}
use gest_aqua.Prelude.{◌≤◌, ◌⊎◌}
use gest_aqua.DlgSorhea.{Options, main, ouvert, use_options, write_cmd}
use gest_aqua.DlgSorhea.CommandLine.{parse-write_line, write_line, written}
use gest_aqua.PowerCam.{I2c, Kernel, PowerCam, frame}
use gest_aqua.PowerCam.Commands.{interrupt_task-enqueue}
use gest_aqua.PowerCam.Device.{open_file, release_file}
use gest_aqua.PowerCam.Ioctl.{ioctl, ioctl_set_cmd, ioctl_switch}
use gest_aqua.PowerCam.Ring.{advance, enqueue}
use gest_aqua.PowerCam.Tasks.{interrupt_task}

-- The board is there, and the ring of commands is empty, its indices those of rows or as attached.
abbrev pub IsReady : {S : Type 0} → PowerCam S → Type 0
IsReady c = (c.client ≡ true) × (c.bufw0 ≡ c.bufw1) × ((c.bufw0 < 10) ⊎ (c.bufw0 ≡ 255))

module _ {S : Type 0} (i2c : I2c S) (k : Kernel) where
  open_file_lem :
      (c : PowerCam S) → c.is_open < 255 → (open_file c).0 ≡ record c { is_open = suc c.is_open }
  unfolding open_file
  open_file_lem c h = elim (Bool-cases (c.is_open == 0)) [
    | inl e ↦ let z : c.is_open ≡ 0 = ground arith in rw (e, z) refl
    | inr e ↦ let n : u8 (c.is_open + 1) ≡ suc c.is_open = omega arith in rw (e, n) refl
  ]

  release_file_lem :
      (c : PowerCam S) (n : ℕ)
      → (release_file (record c { is_open = suc n })).0 ≡ record c { is_open = n }
  unfolding release_file
  release_file_lem c n =
      let e : (suc n == 0) ≡ false = ground arith in
      let d : suc n - 1 ≡ n = omega arith in rw (e, d) refl

  -- A command is queued whatever the number of openings, which it leaves.
  enqueue-is_open :
      (bytes : List ℕ) (n : ℕ) (c : PowerCam S)
      → (enqueue k bytes (record c { is_open = n })).0
        ≡ record (enqueue k bytes c).0 { is_open = n }
  unfolding enqueue
  enqueue-is_open bytes n c = elim (Bool-cases (advance k c.bufw0 == c.bufw1)) [
    | inl e ↦ rw e refl
    | inr e ↦ elim (Bool-cases (leb (length bytes) 20)) [
      | inl f ↦ rw (e, f) refl
      | inr f ↦ rw (e, f) refl
    ]
  ]

  -- The file that is opened for a call counts as before when it is closed.
  release-enqueue-open :
      (bytes : List ℕ) (c : PowerCam S)
      → c.is_open < 255
      → (release_file (enqueue k bytes (open_file c).0).0).0 ≡ (enqueue k bytes c).0
  release-enqueue-open bytes c h =
      rw
        (
          open_file_lem c h,
          enqueue-is_open bytes (suc c.is_open) c,
          release_file_lem (enqueue k bytes c).0 c.is_open,
        )
        (sym (enqueue-is_open bytes c.is_open c))

  write_cmd_lem :
      (jiffies garbage : ℕ) (junk : List ℕ) (o : Options) (c : PowerCam S)
      → (c.is_open == 0) ≡ false
      → write_cmd i2c k jiffies garbage junk o c
        ≡ some ((enqueue k (frame (u8 o.uc_cmd) o.uc_add o.uc_val) c).0, [])
  unfolding write_cmd ioctl ioctl_switch ioctl_set_cmd frame
  write_cmd_lem jiffies garbage junk o c h = rw h refl

  length-frame : (cmd add val : ℕ) → length (frame cmd add val) ≡ 5
  unfolding frame
  length-frame cmd add val = refl

  main-write_line_lem :
      (strtoul : List ℕ → ℕ) (name junk cmd add val : List ℕ) (fd jiffies garbage : ℕ)
      (c : PowerCam S)
      → c.is_open < 255
      → let o = written strtoul cmd add val in
        main i2c k jiffies garbage strtoul (pos fd) junk (name ∷ write_line cmd add val) c
        ≡ some ((enqueue k (frame o.uc_cmd o.uc_add o.uc_val) c).0, ouvert (pos fd) ∷ [])
  unfolding main use_options
  main-write_line_lem strtoul name junk cmd add val fd jiffies garbage c few =
      let o = written strtoul cmd add val in
      let opened : ((open_file c).0.is_open == 0) ≡ false =
        rw (open_file_lem c few) (ground arith) in
      let twice : u8 o.uc_cmd ≡ o.uc_cmd = omega arith in
      let is_file : leb_ℤ (pos 0) (pos fd) ≡ true = ground arith in
      rw
        (
          is_file,
          parse-write_line strtoul cmd add val,
          write_cmd_lem jiffies garbage junk o (open_file c).0 opened,
          twice,
          release-enqueue-open (frame o.uc_cmd o.uc_add o.uc_val) c few,
        )
        refl

  -- The program run with `-w -c CMD -a ADD -v VAL` does to the driver what queueing the frame of the
  -- three bytes does, each a number that `strtoul` reads, modulo 256, and prints the line of the
  -- opening only; the work that it queues sends that frame to the board, and leaves the ring of
  -- commands empty. The frame is CMD, 3, ADD and VAL, and the exclusive or of these four and 90. The board is there, the ring of commands is empty, the file is open less than 255
  -- times, and the opening succeeds.
  pub main-write_line :
      (strtoul : List ℕ → ℕ) (name junk cmd add val : List ℕ) (fd jiffies garbage : ℕ)
      (c : PowerCam S)
      → IsReady c
      → c.is_open < 255
      → let x = u8 (strtoul cmd) in
        let y = u8 (strtoul add) in
        let z = u8 (strtoul val) in
        let check = bit_xor (bit_xor (bit_xor (bit_xor 90 x) 3) y) z in
        let bytes = x ∷ 3 ∷ y ∷ z ∷ check ∷ [] in
        let c1 = (enqueue k bytes c).0 in
        let c2 = interrupt_task i2c k garbage c1 in
        (main i2c k jiffies garbage strtoul (pos fd) junk (name ∷ write_line cmd add val) c
          ≡ some (c1, ouvert (pos fd) ∷ []))
        × (c2.bus ≡ (i2c.master_send bytes c.bus).0)
        × (c2.bufw0 ≡ c2.bufw1)
  unfolding frame
  main-write_line strtoul name junk cmd add val fd jiffies garbage c (there, empty, range) few =
      let o = written strtoul cmd add val in
      let bytes = frame o.uc_cmd o.uc_add o.uc_val in
      let short : length bytes ≤ 20 = rw (length-frame o.uc_cmd o.uc_add o.uc_val) (omega arith) in
      let sent = interrupt_task-enqueue i2c k garbage bytes c there empty range short in
      (main-write_line_lem strtoul name junk cmd add val fd jiffies garbage c few, sent.2, sent.3)
