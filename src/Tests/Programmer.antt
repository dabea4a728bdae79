-- ===== src/Tests/Programmer.antt =====
-- The theorems on the programmer, on pins at rest.
use gest_aqua.Prelude.{[], bit_and, false, negsuc, pos, true, ◌↔◌, ◌≡◌}
use gest_aqua.Pic18f.{Pic18f, pic_close, pic_ioctl, pic_open, read_data, write_data}
use gest_aqua.Pic18f.Pins.{irq-pic_ioctl, read_data-write_data}

abbrev pins : Pic18f
pins = record {
  dev = record { major = pos 0; class_made = false; device_made = false };
  etat_out = 0;
  sdata = 0;
  sclk = 0;
  pgm = 0;
  vpp = 1;
  sdata_in = false;
  irq = true;
  lines = false;
  pmic = [];
}

irq-pic_ioctl_example : (pic_ioctl 0 (write_data (negsuc 13) 3) pins).0.irq ≡ false
irq-pic_ioctl_example = irq-pic_ioctl 0 (write_data (negsuc 13) 3) pins

read_data-write_data_example :
    let c1 = (pic_ioctl 0 (write_data (pos 0) 10) pins).0 in
    let c2 = (pic_close c1).0 in
    let c3 = (pic_open c2).0 in
    ((pic_ioctl 0 read_data c1).1 ≡ pos 10)
    × ((c1.sdata ≡ 0) ↔ (bit_and 10 1 ≡ 0))
    × ((c1.sclk ≡ 0) ↔ (bit_and 10 2 ≡ 0))
    × ((c1.pgm ≡ 0) ↔ (bit_and 10 4 ≡ 0))
    × ((c1.vpp ≡ 1) ↔ (bit_and 10 8 ≡ 0))
    × ((c1.sdata_in ≡ false) ↔ (bit_and 10 16 ≡ 0))
    × ((pic_ioctl 0 read_data c2).1 ≡ pos 10)
    × (c2.sdata ≡ 0)
    × (c2.sclk ≡ 0)
    × (c2.pgm ≡ 0)
    × (c2.vpp ≡ 1)
    × (c2.sdata_in ≡ c1.sdata_in)
    × ((pic_ioctl 0 read_data c3).1 ≡ pos 0)
read_data-write_data_example = read_data-write_data 0 10 pins
