-- ===== src/Config/Curve.antt =====
-- The built-in solar curve of `sInitProfil`: the values of its segments in exact arithmetic.
use gest_aqua.Prelude.{arith, dec_lt, false, get_or, not, pos, suc, true, zero, ℕ, ◌*ℤ◌, ◌+ℤ◌}
use gest_aqua.Prelude.{◌-ℤ◌, ◌<◌, ◌==◌, ◌≡◌, ◌≤◌}
use gest_aqua.Config.{SegmentSolaire, affine}
use gest_aqua.Config.Init.{soleil_profil, zero_segment}
use gest_aqua.Double.Exact.{Ratio, exact}

abbrev pub seg_at : ℕ → SegmentSolaire Ratio
seg_at i = get_or (soleil_profil exact).courbe_solaire.segments i (zero_segment exact)

-- The value `a * x + b` of a segment at `x` hours after the start of the curve, given in seconds.
abbrev pub value_at : SegmentSolaire Ratio → ℕ → Ratio
value_at seg n = elim (seg.courbe) [
  | affine a b ↦ exact.add (exact.mul a (exact.div (exact.of_ℤ (pos n)) (exact.of_ℤ (pos 3600)))) b
  | _ ↦ exact.of_ℤ (pos 0)
]

-- The seconds after the start of the curve at which a segment begins and ends.
abbrev pub Span : ℕ → ℕ → Type 0
Span zero n = n < 3600
Span (suc zero) n = (3600 ≤ n) × (n < 10800)
Span (suc (suc zero)) n = (10800 ≤ n) × (n < 18000)
Span (suc (suc (suc zero))) n = (18000 ≤ n) × (n < 21600)
Span (suc (suc (suc (suc zero)))) n = (21600 ≤ n) × (n < 25200)
Span (suc (suc (suc (suc (suc zero))))) n = (25200 ≤ n) × (n < 32400)
Span (suc (suc (suc (suc (suc (suc zero)))))) n = (32400 ≤ n) × (n < 39600)
Span (suc (suc (suc (suc (suc (suc (suc zero))))))) n = (39600 ≤ n) × (n < 43200)
Span _ n = ⊥

-- Every second of the twelve hours lies in the span of one of the eight segments.
pub Span-cases : (n : ℕ) → n < 43200 → (k : ℕ) × Span k n
Span-cases n h = elim (dec_lt n 3600) [
  | yes p ↦ (0, p)
  | no p1 ↦ elim (dec_lt n 10800) [
    | yes p ↦ (1, omega arith)
    | no p2 ↦ elim (dec_lt n 18000) [
      | yes p ↦ (2, omega arith)
      | no p3 ↦ elim (dec_lt n 21600) [
        | yes p ↦ (3, omega arith)
        | no p4 ↦ elim (dec_lt n 25200) [
          | yes p ↦ (4, omega arith)
          | no p5 ↦ elim (dec_lt n 32400) [
            | yes p ↦ (5, omega arith)
            | no p6 ↦ elim (dec_lt n 39600) [ yes p ↦ (6, omega arith) | no p7 ↦ (7, omega arith) ]
          ]
        ]
      ]
    ]
  ]
]

-- From 12.5 to 100 in each segment, and 100 only at the middle of the twelve hours.
abbrev pub InBounds : SegmentSolaire Ratio → ℕ → Type 0
InBounds seg n =
    (exact.lt (exact.of_ℤ (pos 0)) (value_at seg n) ≡ true)
    × (exact.lt (value_at seg n) (exact.tenths (pos 125)) ≡ false)
    × (exact.lt (value_at seg n) (exact.of_ℤ (pos 100)) ≡ not (n == 21600))

-- At every second of the span of each of the eight segments, the segment's value is from 12.5 to
-- 100, above 0, and it is below 100 at every second but the middle of the twelve hours.
pub value_bounds : (k n : ℕ) → Span k n → InBounds (seg_at k) n
unfolding soleil_profil ◌+ℤ◌ ◌*ℤ◌ ◌-ℤ◌
value_bounds zero n h = ground arith
value_bounds (suc zero) n h = ground arith
value_bounds (suc (suc zero)) n h = ground arith
value_bounds (suc (suc (suc zero))) n h = ground arith
value_bounds (suc (suc (suc (suc zero)))) n h = ground arith
value_bounds (suc (suc (suc (suc (suc zero))))) n h = ground arith
value_bounds (suc (suc (suc (suc (suc (suc zero)))))) n h = ground arith
value_bounds (suc (suc (suc (suc (suc (suc (suc zero))))))) n h = ground arith
value_bounds (suc (suc (suc (suc (suc (suc (suc (suc k)))))))) n h = absurd h
