-- ===== src/Double/Exact.antt =====
-- Exact fractions in place of the processor's floating point: an instance of `Double` that runs, and
-- in which a result is what the source's formulas mean before any rounding.
use gest_aqua.Prelude.{ltb_ℤ, negsuc, pos, suc, ℕ, ℤ, ◌*ℤ◌, ◌*◌, ◌+ℤ◌, ◌-ℤ◌, ◌/◌}
use gest_aqua.Double.{Double}

-- `num / den`; the denominators that the operations build from positive ones are positive.
pub record Ratio : Type 0 where
  pub num : ℤ
  pub den : ℕ

abbrev pub div_ratio : Ratio → Ratio → Ratio
div_ratio x y = elim (y.num) [
  | pos n ↦ record { num = x.num *ℤ pos y.den; den = x.den * n }
  | negsuc n ↦ record { num = pos 0 -ℤ x.num *ℤ pos y.den; den = x.den * suc n }
]

abbrev pub trunc : Ratio → ℕ
trunc x = elim (x.num) [ pos n ↦ n / x.den | negsuc n ↦ 0 ]

abbrev pub exact : Double
exact = record {
  Val = Ratio;
  of_ℤ = λ z. record { num = z; den = 1 };
  tenths = λ z. record { num = z; den = 10 };
  add = λ x y. record { num = x.num *ℤ pos y.den +ℤ y.num *ℤ pos x.den; den = x.den * y.den };
  mul = λ x y. record { num = x.num *ℤ y.num; den = x.den * y.den };
  div = div_ratio;
  lt = λ x y. ltb_ℤ (x.num *ℤ pos y.den) (y.num *ℤ pos x.den);
  to_u64 = trunc;
}
