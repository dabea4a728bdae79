-- ===== src/PowerCam.antt =====
-- driver linux/exemple/stim_drivers/dlgi2c.c and include/dlgi2c.h: the Linux driver that talks over
-- i2c to the PowerCam board. This file has the driver's static data and the bytes of a command. A
-- byte is a number below 256; `S` is the state of the i2c bus.
pub mod Bus
pub mod Ring
pub mod Tasks
pub mod Ioctl
pub mod Device
pub mod Following
pub mod Queue
pub mod Sent
pub mod Rings
pub mod Calls
pub mod Delayed
pub mod Steps
pub mod Masks
pub mod Settings
pub mod Overrun
pub mod Life
pub mod Commands
pub mod Attached
use gest_aqua.Prelude.{Bool, List, Option, [], bit_xor, if◌then◌else◌, pattern_of, pos, signed}
use gest_aqua.Prelude.{suc, zero, ℕ, ℤ, ◌*◌, ◌++◌, ◌+◌, ◌==◌, ◌∷◌}

-- The kernel that the driver is built for: whether `char` is signed, and HZ.
pub record Kernel : Type 0 where
  pub signed_char : Bool
  pub hz : ℕ

-- `i2c_master_send` and `i2c_master_recv` of the kernel: the bytes sent, or the buffer to fill, and
-- the value returned with the buffer after the call.
pub record I2c (S : Type 0) : Type 0 where
  pub master_send : List ℕ → S → S × ℤ
  pub master_recv : List ℕ → S → S × ℤ × List ℕ

abbrev pub taille_buf : ℕ
taille_buf = 10

abbrev pub taille_buf_w : ℕ
taille_buf_w = 20

abbrev pub taille_buf_r : ℕ
taille_buf_r = 2

abbrev pub i2c_read : ℕ
i2c_read = 1

abbrev pub i2c_write : ℕ
i2c_write = 2

-- `struct _i2c_PowerCam_client`, with the static variables of the file: `client` says that the
-- pointer is not null, `buf_read` is the array by address from its first byte, and a row of
-- `buf_write` is the bytes written to it last, its size first. A timer holds the time it expires
-- at, when it is pending; `int_task` and `vie_task` say that the works are queued.
pub record PowerCam (S : Type 0) : Type 0 where
  pub client : Bool
  pub is_open : ℕ
  pub mode : ℕ
  pub buf_read : ℕ → ℕ
  pub bufr0 : ℕ
  pub bufr1 : ℕ
  pub data_on : Bool
  pub buf_write : ℕ → List ℕ
  pub bufw0 : ℕ
  pub bufw1 : ℕ
  pub int_valide : ℕ
  pub cpt_clear : ℕ
  pub old_cpt_clear : ℕ
  pub timer_trame_vie : Option ℕ
  pub valeur_trame_vie : ℕ
  pub nb_int_zero : ℕ
  pub etat_bouton_g : ℕ
  pub cpt_poll : ℕ
  pub timer_bouton : Option ℕ
  pub irq_bouton : Bool
  pub irq_carte : Bool
  pub int_task : Bool
  pub vie_task : Bool
  pub wakes : ℕ
  pub bus : S

-- The value of a `char` that holds a byte, and the byte's value after an `int` is stored in one.
abbrev pub char_val : Kernel → ℕ → ℤ
char_val k n = if k.signed_char then signed 8 n else pos n

abbrev pub to_char : Kernel → ℤ → ℤ
to_char k x = char_val k (pattern_of 8 x)

-- The commands and registers of include/dlgi2c.h.
abbrev pub cmd_w_bank1 : ℕ
cmd_w_bank1 = 1

abbrev pub cmd_w_int : ℕ
cmd_w_int = 2

abbrev pub cmd_w_seuil_pir : ℕ
cmd_w_seuil_pir = 3

abbrev pub cmd_w_stop_alim : ℕ
cmd_w_stop_alim = 4

abbrev pub cmd_w_trame_vie : ℕ
cmd_w_trame_vie = 6

-- `(CMD_READ << 8) | n`
abbrev pub cmd_read : ℕ → ℕ
cmd_read n = 150 * 256 + n

abbrev pub set_int_code : ℕ
set_int_code = 5

abbrev pub alarme_hard : ℕ
alarme_hard = 1

abbrev pub pb_trame_vie : ℕ
pb_trame_vie = 1

abbrev pub bouton_g_face_avant : ℕ
bouton_g_face_avant = 2

abbrev pub int_bouton : ℕ
int_bouton = 2

-- `check_I2C`
abbrev pub xor_all : ℕ → List ℕ → ℕ
xor_all s [] = s
xor_all s (x ∷ xs) = xor_all (bit_xor s x) xs

unfoldable pub check_i2c : List ℕ → ℕ
check_i2c bytes = xor_all 90 bytes

-- The five bytes of `dataI2c` in `SendCmd`.
unfoldable pub frame : ℕ → ℕ → ℕ → List ℕ
unfolding check_i2c
frame cmd add bytes = let head = cmd ∷ 3 ∷ add ∷ bytes ∷ [] in head ++ check_i2c head ∷ []

-- A write to an array.
abbrev pub put {ℓ} : {A : Type ℓ} → ℕ → A → (ℕ → A) → ℕ → A
put i v m = λ j. if j == i then v else m j

-- The bytes from an address.
abbrev pub bytes_at : (ℕ → ℕ) → ℕ → ℕ → List ℕ
bytes_at m a zero = []
bytes_at m a (suc n) = m a ∷ bytes_at m (a + 1) n
