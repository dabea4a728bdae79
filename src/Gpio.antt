-- ===== src/Gpio.antt =====
-- gpio-mmap.cpp and gpio-mmap.h, and the bank and pin of PwmGpio.h, as built with OLINUXINO: the
-- registers of the processor are mapped as words, and each store goes to one of them.
use gest_aqua.Prelude.{Bool, List, Option, bit_and, false, if◌then◌else◌, none, some, ℕ, ◌*◌}
use gest_aqua.Prelude.{◌+◌, ◌/◌, ◌==◌, ◌^◌, ◌∷◌}

-- `gpio_mmap`: whether the registers are mapped, and the stores made so far, the newest first.
pub record Gpio : Type 0 where
  pub mapped : Bool
  pub stores : List (ℕ × ℕ)

-- `gpio_map`: the result of `mmap`, with the pointer as `none` for null. A second call returns null.
unfoldable pub gpio_map : (mmap_ok : Bool) → Gpio → Gpio × Bool
gpio_map mmap_ok g = if g.mapped then (g, false) else (record g { mapped = mmap_ok }, mmap_ok)

-- A store through the mapping; `none` is a store through the null pointer.
unfoldable pub store : ℕ → ℕ → Gpio → Option Gpio
store word value g =
    if g.mapped then some (record g { stores = (word, value) ∷ g.stores }) else none

-- G_BANK and G_PIN
abbrev pub g_bank : ℕ → ℕ
g_bank gpio = gpio / 2 ^ 5

abbrev pub g_pin : ℕ → ℕ
g_pin gpio = bit_and gpio 0x1f

-- The word that GPIO_WRITE stores to: the set register of the bank for a value, its clear register
-- for 0.
abbrev pub write_word : ℕ → ℕ → ℕ
write_word bank value = 0x140 + bank * 2 ^ 2 + (if value == 0 then 2 else 1)

-- GPIO_WRITE
unfoldable pub gpio_write : ℕ → ℕ → ℕ → Gpio → Option Gpio
unfolding store
gpio_write bank pin value = store (write_word bank value) (2 ^ pin)

-- `gpio_output` and `gpio_input`
unfoldable pub gpio_output : ℕ → ℕ → Gpio → Option Gpio
unfolding store
gpio_output bank pin = store (0x1c1 + bank * 4) (2 ^ pin)

unfoldable pub gpio_input : ℕ → ℕ → Gpio → Option Gpio
unfolding store
gpio_input bank pin = store (0x1c2 + bank * 4) (2 ^ pin)
