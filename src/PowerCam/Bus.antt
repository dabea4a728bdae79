-- ===== src/PowerCam/Bus.antt =====
-- dlgi2c.c: what the driver reads from and writes to the i2c bus.
use gest_aqua.Prelude.{Bool, List, [], if◌then◌else◌, leb_ℤ, ltb, ltb_ℤ, negsuc, pattern_of, pos}
use gest_aqua.Prelude.{suc, u32, u8, zero, ℕ, ℤ, ◌&&◌, ◌+◌, ◌/◌, ◌∷◌}
use gest_aqua.PowerCam.{I2c, PowerCam, cmd_w_int, frame}

module _ {S : Type 0} (i2c : I2c S) where
  -- `PowerCam_read_i2c`: the bus, the value returned and the buffer.
  unfoldable pub read_i2c : Bool → ℕ → List ℕ → S → S × ℤ × List ℕ
  read_i2c client addr bytes s =
      if client
      then (let (s1, sent) = i2c.master_send (u8 (addr / 256) ∷ 1 ∷ u8 addr ∷ []) s in
          if leb_ℤ (pos 0) sent
          then (let (s2, got, bytes') = i2c.master_recv bytes s1 in
              if ltb_ℤ got (pos 0) then (s2, negsuc 0, bytes') else (s2, pos 0, bytes'))
          else (s1, negsuc 0, bytes))
      else (s, negsuc 0, bytes)

  -- The loop of `PowerCam_write_i2c` on `ucCpt`: the last value of `ucI2cMasterSend`, an
  -- `unsigned char`.
  unfoldable pub send_tries : ℕ → List ℕ → S → S × ℕ
  send_tries zero bytes s = (s, 0)
  send_tries (suc cpt) bytes s =
      let (s1, sent) = i2c.master_send bytes s in
      let uc = pattern_of 8 sent in
      let again = send_tries cpt bytes s1 in
      if ltb_ℤ (pos uc) (pos 0) && ltb 0 cpt then again else (s1, uc)

  -- `PowerCam_write_i2c`
  unfoldable pub write_i2c : Bool → List ℕ → S → S × ℤ
  unfolding send_tries
  write_i2c client bytes s =
      if client
      then (let (s1, uc) = send_tries 3 bytes s in
          if ltb_ℤ (pos uc) (pos 0) then (s1, negsuc 0) else (s1, pos 0))
      else (s, negsuc 0)

  -- `SendCmd`
  unfoldable pub send_cmd : Bool → ℕ → ℕ → ℕ → S → S × ℤ
  unfolding write_i2c frame
  send_cmd client cmd add bytes s = write_i2c client (frame cmd add bytes) s

  -- `SendCmd` on the driver's client.
  unfoldable pub send : ℕ → ℕ → ℕ → PowerCam S → PowerCam S × ℤ
  unfolding send_cmd
  send cmd add bytes c =
      let (s, ret) = send_cmd c.client cmd add bytes c.bus in (record c { bus = s }, ret)

  -- `PowerCam_read_i2c` on the driver's client.
  unfoldable pub receive : ℕ → List ℕ → PowerCam S → PowerCam S × ℤ × List ℕ
  unfolding read_i2c
  receive addr bytes c =
      let (s, ret, bytes') = read_i2c c.client addr bytes c.bus in
      (record c { bus = s }, ret, bytes')

  -- `ClearIntPowerCam`
  unfoldable pub clear_int : ℕ → PowerCam S → PowerCam S
  unfolding send
  clear_int status c =
      let (c', ret) = send cmd_w_int 1 status c in
      if ltb_ℤ ret (pos 0) then c' else record c' { cpt_clear = u32 (c'.cpt_clear + 1) }
