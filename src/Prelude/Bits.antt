-- ===== src/Prelude/Bits.antt =====
-- The bits of a number, and what `|`, `&` and the complement of a byte do to them.
use Prim.Native.Nat.{ℕ, zero, suc, ◌+◌, ◌-◌, ◌*◌, ◌/◌, ◌%◌, ◌≤◌, ◌<◌, min, max, digits, bitwise}
use Prim.Native.Nat.{bit_and, bit_and-bitwise, bit_or, bit_or-bitwise}
use mathlib.Core.Path.{◌≡◌, refl}
use native.Mathlib.Omega.{arith}

abbrev pub bit : ℕ → ℕ → ℕ
bit zero v = v % 2
bit (suc j) v = bit j (v / 2)

-- A bitwise operation by its lowest bit: `f` is what is left when the first number is over, and `g`
-- what is done to two bits.
module _ (f : ℕ → ℕ) (g : ℕ → ℕ → ℕ) where
  more_digits : (n m a b : ℕ) → a ≤ n → a ≤ m → digits f g n a b ≡ digits f g m a b
  more_digits zero zero a b p q = refl
  more_digits zero (suc m) zero b p q = refl
  more_digits zero (suc m) (suc a) b p q = absurd (omega arith)
  more_digits (suc n) zero zero b p q = refl
  more_digits (suc n) zero (suc a) b p q = absurd (omega arith)
  more_digits (suc n) (suc m) zero b p q = refl
  more_digits (suc n) (suc m) (suc a) b p q =
      omega (arith, more_digits n m (suc a / 2) (b / 2) (omega arith) (omega arith))

  lowest_bit :
      (a b : ℕ)
      → f b ≡ f (b / 2) * 2 + g 0 (b % 2)
      → bitwise f g a b ≡ bitwise f g (a / 2) (b / 2) * 2 + g (a % 2) (b % 2)
  lowest_bit zero b over = over
  lowest_bit (suc a) b over =
      omega (arith, more_digits a (suc a / 2) (suc a / 2) (b / 2) (omega arith) (omega arith))

bit_or_lem : (a b : ℕ) → bit_or a b ≡ bit_or (a / 2) (b / 2) * 2 + max (a % 2) (b % 2)
bit_or_lem a b = omega (
  arith,
  bit_or-bitwise a b,
  bit_or-bitwise (a / 2) (b / 2),
  lowest_bit (λ x. x) max a b (omega arith),
)

bit_and_lem : (a b : ℕ) → bit_and a b ≡ bit_and (a / 2) (b / 2) * 2 + min (a % 2) (b % 2)
bit_and_lem a b = omega (
  arith,
  bit_and-bitwise a b,
  bit_and-bitwise (a / 2) (b / 2),
  lowest_bit (λ x. 0) min a b (omega arith),
)

pub bit-bit_or : (j a b : ℕ) → bit j (bit_or a b) ≡ max (bit j a) (bit j b)
bit-bit_or zero a b = omega (arith, bit_or_lem a b)
bit-bit_or (suc j) a b =
    let half : bit_or a b / 2 ≡ bit_or (a / 2) (b / 2) = omega (arith, bit_or_lem a b) in
    rw half (bit-bit_or j (a / 2) (b / 2))

pub bit-bit_and : (j a b : ℕ) → bit j (bit_and a b) ≡ min (bit j a) (bit j b)
bit-bit_and zero a b = omega (arith, bit_and_lem a b)
bit-bit_and (suc j) a b =
    let half : bit_and a b / 2 ≡ bit_and (a / 2) (b / 2) = omega (arith, bit_and_lem a b) in
    rw half (bit-bit_and j (a / 2) (b / 2))

-- `~b` in a byte.
pub bit_not : (j b : ℕ) → j < 8 → b < 256 → bit j (255 - b) ≡ 1 - bit j b
bit_not zero b h k = omega arith
bit_not (suc zero) b h k = omega arith
bit_not (suc (suc zero)) b h k = omega arith
bit_not (suc (suc (suc zero))) b h k = omega arith
bit_not (suc (suc (suc (suc zero)))) b h k = omega arith
bit_not (suc (suc (suc (suc (suc zero))))) b h k = omega arith
bit_not (suc (suc (suc (suc (suc (suc zero)))))) b h k = omega arith
bit_not (suc (suc (suc (suc (suc (suc (suc zero))))))) b h k = omega arith
bit_not (suc (suc (suc (suc (suc (suc (suc (suc j)))))))) b h k = absurd (omega arith)
