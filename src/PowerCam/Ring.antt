-- ===== src/PowerCam/Ring.antt =====
-- dlgi2c.c: the two ring buffers, of the events for the application and of its commands.
use gest_aqua.Prelude.{Bool, List, Option, [], if◌then◌else◌, leb, leb_ℤ, length, ltb, negsuc}
use gest_aqua.Prelude.{none, not, pos, some, suc, true, u8, zero, ℕ, ℤ, ◌*◌, ◌+◌, ◌-◌, ◌==◌, ◌∷◌}
use gest_aqua.PowerCam.{Kernel, PowerCam, bytes_at, char_val, i2c_write, put, taille_buf}
use gest_aqua.PowerCam.{taille_buf_r, taille_buf_w}

-- An index of a ring, moved on by one.
unfoldable pub advance : Kernel → ℕ → ℕ
advance k i = if leb_ℤ (pos (taille_buf - 1)) (char_val k i) then 0 else u8 (i + 1)

-- Errors of the kernel: EIO, ENODEV, EINVAL, ENOMEM, ENOSPC, as the driver returns them.
abbrev pub error : ℕ → ℤ
error n = negsuc (n - 1)

module _ {S : Type 0} (k : Kernel) where
  -- `DataIn`; `given` says that the pointer is not null.
  unfoldable pub data_in : Bool → ℕ → ℕ → PowerCam S → PowerCam S × ℤ
  unfolding advance
  data_in given data1 data2 c =
      if given
      then (let i = advance k c.bufr0 in
          if not (i == c.bufr1)
          then (
            record c {
              bufr0 = i;
              data_on = true;
              buf_read = put (i * taille_buf_r + 1) data2 (put (i * taille_buf_r) data1 c.buf_read);
            },
            pos 0,
          )
          else (c, negsuc 1))
      else (c, negsuc 0)

  -- The wait of `i2c_PowerCam_read`, at most three sleeps; `sleep` is what the others do meanwhile.
  unfoldable pub wait_data : (ℕ → PowerCam S → PowerCam S) → ℕ → PowerCam S → PowerCam S
  wait_data sleep zero c = c
  wait_data sleep (suc cpt) c =
      let rest = wait_data sleep cpt (sleep cpt c) in if c.data_on then c else rest

  -- The end of `i2c_PowerCam_read`, after the wait. `fault` says that `copy_to_user` fails; `none`
  -- is a copy that runs over the end of the array.
  unfoldable pub take_data : Bool → ℕ → PowerCam S → Option (PowerCam S × ℤ × List ℕ)
  unfolding advance
  take_data fault nbytes c =
      if c.data_on
      then (if not (c.bufr0 == c.bufr1)
          then (let i = advance k c.bufr1 in
              if ltb (taille_buf * taille_buf_r) (i * taille_buf_r + nbytes)
              then none
              else if fault
              then some (c, error 5, [])
              else some (
                record c { bufr1 = i; data_on = not (c.bufr0 == i) },
                pos nbytes,
                bytes_at c.buf_read (i * taille_buf_r) nbytes,
              ))
          else some (c, error 28, []))
      else some (c, pos nbytes, [])

  -- `i2c_PowerCam_read`: the state, the value returned and the bytes copied to the application.
  unfoldable pub read :
      Bool
      → (ℕ → PowerCam S → PowerCam S)
      → Bool
      → ℕ
      → PowerCam S
      → Option (PowerCam S × ℤ × List ℕ)
  unfolding wait_data take_data
  read file sleep fault nbytes c =
      if not file
      then some (c, error 19, [])
      else if not (c.is_open == 0)
      then take_data fault nbytes (wait_data sleep 3 c)
      else some (c, error 19, [])

  -- `i2c_PowerCam_Send`; `nbytes` is the length of the bytes.
  unfoldable pub enqueue : List ℕ → PowerCam S → PowerCam S × ℤ
  unfolding advance
  enqueue bytes c =
      let i = advance k c.bufw0 in
      let nbytes = length bytes in
      if not (i == c.bufw1)
      then if leb nbytes taille_buf_w
        then (
          record c {
            bufw0 = i;
            buf_write = put i (nbytes ∷ bytes) c.buf_write;
            mode = i2c_write;
            int_task = true;
          },
          pos nbytes,
        )
        else (c, error 12)
      else (c, error 28)

  -- `i2c_PowerCam_write`; `none` is a `copy_from_user` that fails.
  unfoldable pub write : Bool → ℕ → Option (List ℕ) → PowerCam S → PowerCam S × ℤ
  unfolding enqueue
  write file nbytes bytes c =
      if not file
      then (c, error 19)
      else if not (c.is_open == 0)
      then if leb nbytes taille_buf_w
        then elim bytes [ none ↦ (c, error 22) | some b ↦ enqueue b c ]
        else (c, error 12)
      else (c, error 19)
