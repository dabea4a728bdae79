-- ===== src/Prelude/Words.antt =====
-- C integers of a fixed width: signed values are ℤ, unsigned ones ℕ.
use gest_aqua.Prelude.Tests.{ltb, if◌then◌else◌}
use Prim.Native.Nat.{ℕ, ◌+◌, ◌-◌, ◌%◌, ◌^◌}
use gest_aqua.Prelude.Int.{ℤ, pos, negsuc}

-- The bit pattern of an integer in `w` bits.
abbrev pub pattern_of : ℕ → ℤ → ℕ
pattern_of w (pos n) = n % 2 ^ w
pattern_of w (negsuc n) = 2 ^ w - 1 - n % 2 ^ w

-- The signed integer that a `w`-bit pattern stands for.
abbrev pub signed : ℕ → ℕ → ℤ
signed w u = if ltb u (2 ^ (w - 1)) then pos u else negsuc (2 ^ w - 1 - u)

-- The result of signed arithmetic in `w` bits, wrapped as the target does.
abbrev pub wrap : ℕ → ℤ → ℤ
wrap w x = signed w (pattern_of w x)

-- Conversion to `uint64_t`.
abbrev pub to_u64 : ℤ → ℕ
to_u64 = pattern_of 64

abbrev pub u8 : ℕ → ℕ
u8 n = n % 2 ^ 8

abbrev pub u32 : ℕ → ℕ
u32 n = n % 2 ^ 32

abbrev pub u64 : ℕ → ℕ
u64 n = n % 2 ^ 64

-- `uint64_t` subtraction.
abbrev pub sub_u64 : ℕ → ℕ → ℕ
sub_u64 a b = (a + 2 ^ 64 - b) % 2 ^ 64
