-- ===== src/RegDebug.antt =====
-- driver linux/exemple/stim_drivers/regdebug.c and include/regdebug.h: the driver that reads and
-- writes registers of the processor, of a camera and of the network chip for an application. `S` is
-- the state of the hardware.
pub mod Clock
pub mod Handler
pub mod Running
pub mod Replied
use gest_aqua.Prelude.{Bool, ℕ, ℤ}

-- `struct StimDebugReg`: three words of 32 bits.
pub record StimDebugReg : Type 0 where
  pub registre : ℕ
  pub valeur_read : ℕ
  pub valeur_write : ℕ

-- A camera driver's `read_reg (reg, val)`, which gets the byte that `val` points to and says what it
-- holds after the call, and its `write_reg (reg, val)`.
pub record Camera (S : Type 0) : Type 0 where
  pub read_reg : ℕ → ℕ → S → S × ℤ × ℕ
  pub write_reg : ℕ → ℕ → S → S × ℤ

-- A setting of the OV9655, its exposure (AEC) or its gain (AGC): `ov9655_get_aec` gets what the
-- pointer points to and says what it holds after the call.
pub record Setting (S : Type 0) : Type 0 where
  pub get_value : ℕ → S → S × ℤ × ℕ
  pub set_value : ℕ → S → S × ℤ

-- Registers that a pair of functions reads and writes: `__raw_readl` and `__raw_writel` at
-- `IO_ADDRESS`, the pair of `Lan_GetRegDW` and the pair of `Extern_Mac_GetRegDW`. The registers are
-- words of 32 bits: `store` is given such a word, and what `load` gives is taken modulo 2 ^ 32.
pub record Registers (S : Type 0) : Type 0 where
  pub load : ℕ → S → S × ℕ
  pub store : ℕ → ℕ → S → S

-- The functions of the kernel and of other drivers that this driver calls, and the configuration
-- that it is built for.
pub record Platform (S : Type 0) : Type 0 where
  pub config_vs6624 : Bool
  pub config_ov9655 : Bool
  pub config_smsc91xx : Bool
  pub clk_round_rate : ℕ → S → ℕ
  pub clk_set_rate : ℕ → S → S
  pub ipu_csi_enable_mclk : Bool → S → S
  pub vs6624 : Camera S
  pub ov9655 : Camera S
  pub aec : Setting S
  pub agc : Setting S
  pub imx : Registers S
  pub lan : Registers S
  pub mac : Registers S
  pub pm_suspend : S → S

-- The hardware, and what the driver last asked of the camera's clock: its rate, and whether it runs.
pub record Board (S : Type 0) : Type 0 where
  pub hw : S
  pub rate : ℕ
  pub mclk : Bool
