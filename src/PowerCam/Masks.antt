-- ===== src/PowerCam/Masks.antt =====
-- The interrupts of the board that the application allows and forbids.
-- I2C_SET_INT and I2C_DEL_INT, with the bits of the interrupts.
use gest_aqua.Prelude.{All, Bool-cases, List, Option, [], ap, ap₂, arith, bit, bit-bit_and}
use gest_aqua.Prelude.{bit-bit_or, bit_and, bit_not, bit_or, false, if◌then◌else◌, inl, inr}
use gest_aqua.Prelude.{length, pos, refl, replicate, some, suc, sym, true, u32, zero, ℕ, ℤ, ◌+◌}
use gest_aqua.Prelude.{◌-◌, ◌/◌, ◌<◌, ◌==◌, ◌>>=◌, ◌∙◌, ◌∷◌, ◌≡◌}
use gest_aqua.PowerCam.{I2c, Kernel, PowerCam, cmd_w_int, frame, int_bouton}
use gest_aqua.PowerCam.Bus.{send, send_cmd}
use gest_aqua.PowerCam.Ioctl.{Ioctl, del_int, ioctl, ioctl_del_int, ioctl_set_int, ioctl_switch}
use gest_aqua.PowerCam.Ioctl.{set_int}
use gest_aqua.PowerCam.Life.{write_i2c_lem}

pub data Change : Type 0 where
  allow forbid : ℕ → Change

abbrev pub bits_of : Change → ℕ
bits_of (allow b) = b
bits_of (forbid b) = b

abbrev pub call_of : Change → Ioctl
call_of (allow b) = set_int (some b)
call_of (forbid b) = del_int (some b)

-- The interrupts that are valid after a change, and after several: the last one says so.
abbrev pub changed : Change → ℕ → ℕ
changed (allow b) v = bit_or v b
changed (forbid b) v = bit_and v (255 - b)

abbrev pub valid_bit : ℕ → List Change → ℕ → ℕ
valid_bit j [] old = old
valid_bit j (allow b ∷ changes) old = valid_bit j changes (if bit j b == 1 then 1 else old)
valid_bit j (forbid b ∷ changes) old = valid_bit j changes (if bit j b == 1 then 0 else old)

bit_two : (j v : ℕ) → bit j v < 2
bit_two zero v = omega arith
bit_two (suc j) v = bit_two j (v / 2)

-- What a change does to one bit.
bit-changed :
    (j : ℕ) (change : Change) (v : ℕ)
    → j < 8
    → bits_of change < 256
    → valid_bit j (change ∷ []) (bit j v) ≡ bit j (changed change v)
bit-changed j (allow b) v h k = ground (arith, bit-bit_or j v b, bit_two j b, bit_two j v)
bit-changed j (forbid b) v h k =
    ground (arith, bit-bit_and j v (255 - b), bit_not j b h k, bit_two j b, bit_two j v)

valid_bit-cons :
    (j : ℕ) (change : Change) (changes : List Change) (old : ℕ)
    → valid_bit j (change ∷ changes) old ≡ valid_bit j changes (valid_bit j (change ∷ []) old)
valid_bit-cons j (allow b) changes old = refl
valid_bit-cons j (forbid b) changes old = refl

module _ {S : Type 0} (i2c : I2c S) (k : Kernel) (jiffies garbage : ℕ) where
  -- The calls one after the other, with the values that they return.
  abbrev pub calls : List Change → PowerCam S → Option (PowerCam S × List ℤ)
  calls [] c = some (c, [])
  calls (change ∷ changes) c = do
    (c1, ret, out) ← ioctl i2c k true jiffies garbage (call_of change) c
    (c2, rets) ← calls changes c1
    some (c2, ret ∷ rets)

  -- What the board is sent: after each change the interrupts that are valid.
  abbrev pub told : List Change → ℕ → S → S
  told [] v s = s
  told (change ∷ changes) v s =
      let v' = changed change v in told changes v' (i2c.master_send (frame cmd_w_int 0 v') s).0

  -- What a change leaves alone, and what it does.
  abbrev Follows : Change → PowerCam S → PowerCam S → Type 0
  Follows change c c' =
      (c'.client ≡ true)
      × (c'.is_open ≡ c.is_open)
      × (c'.int_valide ≡ changed change c.int_valide)
      × (c'.bus ≡ (i2c.master_send (frame cmd_w_int 0 (changed change c.int_valide)) c.bus).0)

  send_sent :
      (cmd add b : ℕ) (c : PowerCam S)
      → c.client ≡ true
      → send i2c cmd add b c
        ≡ (record c { bus = (i2c.master_send (frame cmd add b) c.bus).0 }, pos 0)
  unfolding send send_cmd
  send_sent cmd add b c there = rw (there, write_i2c_lem i2c (frame cmd add b) c.bus) refl

  -- The interrupt of the left button has a timer, or is freed.
  abbrev set_bouton : ℕ → PowerCam S → PowerCam S
  set_bouton b c =
      if b == int_bouton
      then record c { cpt_poll = 0; timer_bouton = some (u32 (jiffies + k.hz)) }
      else c

  abbrev del_bouton : ℕ → PowerCam S → PowerCam S
  del_bouton b c = if b == int_bouton then record c { irq_bouton = false } else c

  -- The state after a change, `c1` being the state with the button's.
  abbrev changed_to : ℕ → PowerCam S → PowerCam S
  changed_to v c1 = record c1 {
    bus = (i2c.master_send (frame cmd_w_int 0 v) c1.bus).0;
    int_valide = v;
  }

  ioctl_set_int_lem :
      (b : ℕ) (c : PowerCam S)
      → c.client ≡ true
      → ioctl_set_int i2c k jiffies (some b) c
        ≡ (changed_to (bit_or c.int_valide b) (set_bouton b c), pos 0, [])
  unfolding ioctl_set_int send send_cmd
  ioctl_set_int_lem b c there =
      let sent = write_i2c_lem i2c (frame cmd_w_int 0 (bit_or c.int_valide b)) c.bus in
      elim (Bool-cases (b == int_bouton)) [
        | inl e ↦ rw (e, there, sent) refl
        | inr e ↦ rw (e, there, sent) refl
      ]

  ioctl_del_int_lem :
      (b : ℕ) (c : PowerCam S)
      → c.client ≡ true
      → ioctl_del_int i2c k (some b) c
        ≡ (changed_to (bit_and c.int_valide (255 - b)) (del_bouton b c), pos 0, [])
  unfolding ioctl_del_int send send_cmd
  ioctl_del_int_lem b c there =
      let sent = write_i2c_lem i2c (frame cmd_w_int 0 (bit_and c.int_valide (255 - b))) c.bus in
      elim (Bool-cases (b == int_bouton)) [
        | inl e ↦ rw (e, there, sent) refl
        | inr e ↦ rw (e, there, sent) refl
      ]

  ioctl-change :
      (change : Change) (c : PowerCam S)
      → c.client ≡ true
      → (c.is_open == 0) ≡ false
      → (c' : PowerCam S) × (ioctl i2c k true jiffies garbage (call_of change) c
          ≡ some (c', pos 0, []))
        × Follows change c c'
  unfolding ioctl ioctl_switch
  ioctl-change (allow b) c there is_open = (
    changed_to (bit_or c.int_valide b) (set_bouton b c),
    rw (is_open, ioctl_set_int_lem b c there) refl,
    (ground arith, ground arith, refl, ground arith),
  )
  ioctl-change (forbid b) c there is_open = (
    changed_to (bit_and c.int_valide (255 - b)) (del_bouton b c),
    rw (is_open, ioctl_del_int_lem b c there) refl,
    (ground arith, ground arith, refl, ground arith),
  )

  -- The application allows and forbids interrupts of the board, in any order and any number, with
  -- I2C_SET_INT and I2C_DEL_INT on an open file, the board being there. Every call returns 0 and sends
  -- the board the interrupts that are valid then, and nothing else, once; and each of the eight is
  -- valid at the end exactly when the last call that names it allows it, or when none names it and it
  -- was before.
  pub ioctl-valid_bit :
      (changes : List Change) (c : PowerCam S)
      → c.client ≡ true
      → (c.is_open == 0) ≡ false
      → All (λ change. bits_of change < 256) changes
      → (c' : PowerCam S) × (calls changes c ≡ some (c', replicate (length changes) (pos 0)))
        × ((j : ℕ) → j < 8 → bit j c'.int_valide ≡ valid_bit j changes (bit j c.int_valide))
        × (c'.bus ≡ told changes c.int_valide c.bus)
  ioctl-valid_bit [] c there is_open bytes = (c, refl, (λ j h. refl), refl)
  ioctl-valid_bit (change ∷ changes) c there is_open (byte, bytes) =
      let (c1, done, (there1, open1, valid1, bus1)) = ioctl-change change c there is_open in
      let (c2, rest, bits, bus2) = ioctl-valid_bit changes c1 there1 (rw open1 is_open) bytes in
      (
        c2,
        rw (done, rest) refl,
        (λ j h.
            bits j h
            ∙ ap (valid_bit j changes)
                (ap (bit j) valid1 ∙ sym (bit-changed j change c.int_valide h byte))
            ∙ sym (valid_bit-cons j change changes (bit j c.int_valide))),
        bus2 ∙ ap₂ (told changes) valid1 bus1,
      )
