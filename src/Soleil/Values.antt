-- ===== src/Soleil/Values.antt =====
-- The values of the built-in curve, in exact arithmetic, and the duty that the PWM keeps of them.
use gest_aqua.Prelude.{Bool-cases, arith, get_elem?, if◌then◌else◌, inl, inr, negsuc, pos, refl}
use gest_aqua.Prelude.{some, suc, zero, ℕ, ℤ, ◌+ℤ◌, ◌+◌, ◌-ℤ◌, ◌==◌, ◌≡◌}
use gest_aqua.Config.{SegmentSolaire, affine, heure}
use gest_aqua.Config.Curve.{Span, seg_at, value_at, value_bounds}
use gest_aqua.Config.Init.{soleil_profil}
use gest_aqua.Double.Exact.{Ratio, exact}
use gest_aqua.Pwm.{PwmGpio, set_rapport}
use gest_aqua.Soleil.{Soleil, find_segment}

pub find-default :
    (k n : ℕ)
    → Span k n
    → find_segment (pos (28800 + n)) (soleil_profil exact).courbe_solaire.segments 0 8
      ≡ some (some (k, seg_at k))
unfolding find_segment soleil_profil ◌+ℤ◌
find-default zero n h = ground arith
find-default (suc zero) n h = ground arith
find-default (suc (suc zero)) n h = ground arith
find-default (suc (suc (suc zero))) n h = ground arith
find-default (suc (suc (suc (suc zero)))) n h = ground arith
find-default (suc (suc (suc (suc (suc zero))))) n h = ground arith
find-default (suc (suc (suc (suc (suc (suc zero)))))) n h = ground arith
find-default (suc (suc (suc (suc (suc (suc (suc zero))))))) n h = ground arith
find-default (suc (suc (suc (suc (suc (suc (suc (suc k)))))))) n h = absurd h

pub elapsed : (n : ℕ) → pos (28800 + n) -ℤ heure 8 ≡ pos n
unfolding ◌-ℤ◌
elapsed n = ground arith

-- A lamp that follows the built-in curve and has no segment in force.
abbrev pub waiting : Soleil Ratio → Soleil Ratio
waiting s = record s { index = negsuc 0; param = soleil_profil exact }

-- The duty that `SetRapportCyclique` keeps of a value of the curve.
pub kept-value :
    (k n : ℕ) (p : PwmGpio Ratio)
    → Span k n
    → (set_rapport exact (value_at (seg_at k) n) p).rapport
      ≡ (if n == 21600 then exact.tenths (pos 500) else value_at (seg_at k) n)
unfolding set_rapport
kept-value k n p h =
    let (low, _, high) = value_bounds k n h in
    elim (Bool-cases (n == 21600)) [
      | inl noon ↦ rw (low, high, noon)
      | inr other ↦ rw (low, high, other)
    ]

-- The segments are in the array, and affine.
pub seg_at_lem :
    (k n : ℕ)
    → Span k n
    → (a : Ratio) × (b : Ratio) × ((seg_at k).courbe ≡ affine a b)
      × (get_elem? (soleil_profil exact).courbe_solaire.segments k ≡ some (seg_at k))
unfolding soleil_profil
seg_at_lem zero n h = (_, _, refl, refl)
seg_at_lem (suc zero) n h = (_, _, refl, refl)
seg_at_lem (suc (suc zero)) n h = (_, _, refl, refl)
seg_at_lem (suc (suc (suc zero))) n h = (_, _, refl, refl)
seg_at_lem (suc (suc (suc (suc zero)))) n h = (_, _, refl, refl)
seg_at_lem (suc (suc (suc (suc (suc zero))))) n h = (_, _, refl, refl)
seg_at_lem (suc (suc (suc (suc (suc (suc zero)))))) n h = (_, _, refl, refl)
seg_at_lem (suc (suc (suc (suc (suc (suc (suc zero))))))) n h = (_, _, refl, refl)
seg_at_lem (suc (suc (suc (suc (suc (suc (suc (suc k)))))))) n h = absurd h

-- The formula of the code, at the elapsed seconds as it computes them, is the value of the segment.
pub add-mul-value_at :
    (seg : SegmentSolaire Ratio) (n : ℕ) (a b : Ratio) (x : ℤ)
    → seg.courbe ≡ affine a b
    → x ≡ pos n
    → exact.add (exact.mul a (exact.div (exact.of_ℤ x) (exact.of_ℤ (pos 3600)))) b ≡ value_at seg n
add-mul-value_at seg n a b x e ex = rw (e, ex, value_at)
