-- ===== src/PowerCam/Commands.antt =====
-- The commands of the application: a command goes from the ring to the bus, unless the board asks for
-- attention before the work has run.
use gest_aqua.Prelude.{Bool, List, [], ap, arith, false, leb, length, negsuc, pos, refl, suc}
use gest_aqua.Prelude.{sym, take, true, zero, ℕ, ◌%◌, ◌+◌, ◌-◌, ◌<◌, ◌==◌, ◌∙◌, ◌∷◌, ◌≡◌, ◌≤◌}
use gest_aqua.Prelude.{◌⊎◌}
use gest_aqua.PowerCam.{I2c, Kernel, PowerCam, put}
use gest_aqua.PowerCam.Device.{Answers, Registered, exit_module, init_module, open_file}
use gest_aqua.PowerCam.Device.{release_file}
use gest_aqua.PowerCam.Life.{write_i2c_lem}
use gest_aqua.PowerCam.Ring.{advance, enqueue}
use gest_aqua.PowerCam.Tasks.{interrupt_task, write_command}

take-length : (xs : List ℕ) → take (length xs) xs ≡ xs
take-length [] = refl
take-length (x ∷ xs) = ap (λ l. x ∷ l) (take-length xs)

pub put_self : {A : Type 0} (i : ℕ) (v : A) (m : ℕ → A) → put i v m i ≡ v
put_self i v m = ground arith

advance_ne : (k : Kernel) (i : ℕ) → (i < 10) ⊎ (i ≡ 255) → (advance k i == i) ≡ false
unfolding advance
advance_ne k i h = ground arith

module _ {S : Type 0} (i2c : I2c S) (k : Kernel) where
  pub enqueue_lem :
      (bytes : List ℕ) (c : PowerCam S)
      → (advance k c.bufw0 == c.bufw1) ≡ false
      → length bytes ≤ 20
      → enqueue k bytes c ≡ (
        record c {
          bufw0 = advance k c.bufw0;
          buf_write = put (advance k c.bufw0) (length bytes ∷ bytes) c.buf_write;
          mode = 2;
          int_task = true;
        },
        pos (length bytes),
      )
  unfolding enqueue
  enqueue_lem bytes c moved short =
      let fits : leb (length bytes) 20 ≡ true = ground arith in rw (moved, fits) refl

  -- The work sends the oldest row of the ring of commands and takes it off.
  pub write_command_lem :
      (bytes : List ℕ) (c : PowerCam S)
      → c.client ≡ true
      → (c.bufw0 == c.bufw1) ≡ false
      → c.buf_write (advance k c.bufw1) ≡ length bytes ∷ bytes
      → write_command i2c k c
        ≡ record c { bus = (i2c.master_send bytes c.bus).0; bufw1 = advance k c.bufw1 }
  unfolding write_command
  write_command_lem bytes c there some_row row =
      rw (some_row, row, there, take-length bytes, write_i2c_lem i2c bytes c.bus) refl

  pub interrupt_task-write :
      (garbage : ℕ) (c : PowerCam S)
      → c.mode ≡ 2
      → interrupt_task i2c k garbage c ≡ (
          let done = write_command i2c k (record c { int_task = false }) in
          record done { wakes = done.wakes + 1 })
  unfolding interrupt_task
  interrupt_task-write garbage c m = rw m refl

  -- A command of at most twenty bytes given to an empty ring of commands is accepted, and the work
  -- that it queues sends its bytes, and nothing else, once over the bus; the ring is then empty
  -- again. The board is there and the indices are those of rows, or the 255 of the attachment.
  pub interrupt_task-enqueue :
      (garbage : ℕ) (bytes : List ℕ) (c : PowerCam S)
      → c.client ≡ true
      → c.bufw0 ≡ c.bufw1
      → (c.bufw0 < 10) ⊎ (c.bufw0 ≡ 255)
      → length bytes ≤ 20
      → let (c1, ret) = enqueue k bytes c in
        let c2 = interrupt_task i2c k garbage c1 in
        (ret ≡ pos (length bytes))
        × (c1.int_task ≡ true)
        × (c2.bus ≡ (i2c.master_send bytes c.bus).0)
        × (c2.bufw0 ≡ c2.bufw1)
        × (c2.int_task ≡ false)
        × (c2.wakes ≡ c.wakes + 1)
  interrupt_task-enqueue garbage bytes c there empty range short =
      let i = advance k c.bufw0 in
      let same : i ≡ advance k c.bufw1 = ap (advance k) empty in
      let moved : (i == c.bufw1) ≡ false = rw (sym empty) (advance_ne k c.bufw0 range) in
      let c1 = record c {
        bufw0 = i;
        buf_write = put i (length bytes ∷ bytes) c.buf_write;
        mode = 2;
        int_task = true;
      } in
      let row : put i (length bytes ∷ bytes) c.buf_write (advance k c.bufw1)
          ≡ length bytes ∷ bytes =
        rw (sym same) (put_self i (length bytes ∷ bytes) c.buf_write) in
      let sent = write_command_lem bytes (record c1 { int_task = false }) there moved row in
      rw (enqueue_lem bytes c moved short, interrupt_task-write garbage c1 refl, sent)
        (refl, refl, refl, same, refl, refl)

-- The driver between two openings and closings of its file.
module _ {S : Type 0} where
  abbrev pub opens : ℕ → PowerCam S → PowerCam S
  opens zero c = c
  opens (suc n) c = opens n (open_file c).0

  abbrev pub releases : ℕ → PowerCam S → PowerCam S
  releases zero c = c
  releases (suc n) c = releases n (release_file c).0

  is_open-opens :
      (n : ℕ) (c : PowerCam S) → c.is_open < 256 → (opens n c).is_open ≡ (c.is_open + n) % 256
  unfolding open_file
  is_open-opens zero c h = omega arith
  is_open-opens (suc n) c h =
      let one : (open_file c).0.is_open ≡ (c.is_open + 1) % 256 = ground arith in
      is_open-opens n (open_file c).0 (omega (arith, one)) ∙ omega (arith, one)

  is_open-releases : (n : ℕ) (c : PowerCam S) → (releases n c).is_open ≡ c.is_open - n
  unfolding release_file
  is_open-releases zero c = omega arith
  is_open-releases (suc n) c =
      let one : (release_file c).0.is_open ≡ c.is_open - 1 = ground arith in
      is_open-releases n (release_file c).0 ∙ omega (arith, one)

  -- The file counts its openings modulo 256: after a number of openings of a closed file, and no more
  -- closings, what is left is the difference, of the openings modulo 256; so a file that was opened
  -- 256 times counts as closed.
  pub is_open-releases-opens :
      (n m : ℕ) (c : PowerCam S) → c.is_open ≡ 0 → (releases m (opens n c)).is_open ≡ n % 256 - m
  is_open-releases-opens n m c h =
      omega (arith, is_open-releases m (opens n c), is_open-opens n c (omega arith))

-- Nothing of the driver is registered.
abbrev pub unregistered : Registered
unregistered = record { driver = false; major = pos 0; class_made = false; device_made = false }

-- When `I2cPowerCam_init` fails, it leaves nothing registered; when it succeeds, everything is, with
-- the number that the kernel gave, and `I2cPowerCam_exit` takes all of it away.
pub exit_module-init_module :
    (client : Bool) (a : Answers)
    → let (r, ret) = init_module client a unregistered in
      ((ret ≡ negsuc 0) × (r ≡ unregistered))
      ⊎ (ret ≡ pos 0)
        × (r.driver ≡ true)
        × (r.major ≡ a.major)
        × (r.device_made ≡ true)
        × (exit_module client r ≡ unregistered)
unfolding init_module exit_module
exit_module-init_module client a = ground arith
