-- ===== src/Pic18f/Pins.antt =====
-- What the commands of the programmer do to the pins and to the interrupts.
use gest_aqua.Prelude.{Bool, arith, bit_and, eq_ℤ, false, if◌then◌else◌, negsuc, not, pos, refl}
use gest_aqua.Prelude.{signed, true, ℕ, ◌↔◌, ◌≡◌, ◌⊎◌}
use gest_aqua.CharDevice.{Replies, register, unregister}
use gest_aqua.Pic18f.{Pic18f, PicIoctl, foreign, pic_close, pic_exit, pic_init, pic_ioctl}
use gest_aqua.Pic18f.{pic_open, read_data, read_stat, unknown, write_data, write_stat}

-- Whether a command is a PIC18F_WRITE_DATA whose word cannot be read.
abbrev pub is_fault : PicIoctl → Bool
is_fault (write_data err param) = not (eq_ℤ err (pos 0))
is_fault _ = false

-- Every command leaves the interrupts of the processor as they were, but a PIC18F_WRITE_DATA whose
-- word cannot be read: it returns with the interrupts off.
pub irq-pic_ioctl :
    (level : ℕ) (cmd : PicIoctl) (c : Pic18f)
    → (pic_ioctl level cmd c).0.irq ≡ (if is_fault cmd then false else c.irq)
unfolding pic_ioctl
irq-pic_ioctl level read_data c = refl
irq-pic_ioctl level (write_data err param) c = ground arith
irq-pic_ioctl level read_stat c = refl
irq-pic_ioctl level write_stat c = refl
irq-pic_ioctl level unknown c = refl
irq-pic_ioctl level foreign c = refl

-- A word written is what PIC18F_READ_DATA returns then, as an `int` of 32 bits; the output latches of
-- the data, clock and programming pins hold its bits 0, 1 and 2, and that of the voltage pin its bit 3
-- inverted; the data pin is an input exactly when bit 4 is set. The closing of the file puts the four
-- latches at rest, 1 for the voltage and 0 for the others, and keeps the direction of the data pin and
-- the word, which the next opening clears.
pub read_data-write_data :
    (level param : ℕ) (c : Pic18f)
    → let c1 = (pic_ioctl level (write_data (pos 0) param) c).0 in
      let c2 = (pic_close c1).0 in
      let c3 = (pic_open c2).0 in
      ((pic_ioctl level read_data c1).1 ≡ signed 32 param)
      × ((c1.sdata ≡ 0) ↔ (bit_and param 1 ≡ 0))
      × ((c1.sclk ≡ 0) ↔ (bit_and param 2 ≡ 0))
      × ((c1.pgm ≡ 0) ↔ (bit_and param 4 ≡ 0))
      × ((c1.vpp ≡ 1) ↔ (bit_and param 8 ≡ 0))
      × ((c1.sdata_in ≡ false) ↔ (bit_and param 16 ≡ 0))
      × ((pic_ioctl level read_data c2).1 ≡ signed 32 param)
      × (c2.sdata ≡ 0)
      × (c2.sclk ≡ 0)
      × (c2.pgm ≡ 0)
      × (c2.vpp ≡ 1)
      × (c2.sdata_in ≡ c1.sdata_in)
      × ((pic_ioctl level read_data c3).1 ≡ pos 0)
unfolding pic_ioctl pic_close pic_open
read_data-write_data level param c = (
  refl,
  ground arith,
  ground arith,
  ground arith,
  ground arith,
  ground arith,
  refl,
  refl,
  refl,
  refl,
  refl,
  refl,
  refl,
)

-- Nothing is registered, and the pins are as the kernel left them.
abbrev pub IsFree : Pic18f → Type 0
IsFree c =
    (c.dev.major ≡ pos 0)
    × (c.dev.class_made ≡ false)
    × (c.dev.device_made ≡ false)
    × (c.lines ≡ false)

-- From a state in which nothing is registered, `PIC18F_init` either fails and leaves nothing
-- registered and no pin set up, or succeeds with everything registered and the pins at rest; in both
-- cases `PIC18F_exit` then leaves nothing registered and no pin set up.
pub pic_exit-pic_init :
    (a : Replies) (c : Pic18f)
    → IsFree c
    → let (c', ret) = pic_init a c in
      ((ret ≡ negsuc 0) × IsFree c' ⊎ (ret ≡ pos 0) × (c'.dev.device_made ≡ true) × (c'.vpp ≡ 1))
      × IsFree (pic_exit c')
unfolding pic_init pic_exit register unregister
pic_exit-pic_init a c free = ground arith
