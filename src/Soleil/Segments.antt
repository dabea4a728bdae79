-- ===== src/Soleil/Segments.antt =====
-- The segments of the built-in curve: when each is in force, and the time between its rounds.
use gest_aqua.Prelude.{Bool, arith, if◌then◌else◌, leb, leb_ℤ, ltb, pos, refl, suc, zero, ℕ}
use gest_aqua.Prelude.{◌+ℤ◌, ◌+◌, ◌<◌, ◌≡◌, ◌≤◌}
use gest_aqua.Config.Curve.{Span, seg_at}
use gest_aqua.Config.Init.{soleil_profil}

-- The segment that holds a second after 8 h, the time between two rounds in it and its end.
abbrev pub segment_at : ℕ → ℕ
segment_at n =
    if ltb n 3600
    then 0
    else if ltb n 10800
    then 1
    else if ltb n 18000
    then 2
    else if ltb n 21600
    then 3
    else if ltb n 25200
    then 4
    else if ltb n 32400
    then 5
    else if ltb n 39600
    then 6
    else 7

abbrev pub intervalle : ℕ → ℕ
intervalle zero = 1
intervalle (suc zero) = 1
intervalle (suc (suc zero)) = 60
intervalle (suc (suc (suc zero))) = 30
intervalle (suc (suc (suc (suc zero)))) = 30
intervalle (suc (suc (suc (suc (suc zero))))) = 60
intervalle _ = 1

abbrev pub end_of : ℕ → ℕ
end_of zero = 3600
end_of (suc zero) = 10800
end_of (suc (suc zero)) = 18000
end_of (suc (suc (suc zero))) = 21600
end_of (suc (suc (suc (suc zero)))) = 25200
end_of (suc (suc (suc (suc (suc zero))))) = 32400
end_of (suc (suc (suc (suc (suc (suc zero)))))) = 39600
end_of _ = 43200

pub segment_at-Span : (k n : ℕ) → Span k n → segment_at n ≡ k
segment_at-Span zero n h = ground arith
segment_at-Span (suc zero) n h = ground arith
segment_at-Span (suc (suc zero)) n h = ground arith
segment_at-Span (suc (suc (suc zero))) n h = ground arith
segment_at-Span (suc (suc (suc (suc zero)))) n h = ground arith
segment_at-Span (suc (suc (suc (suc (suc zero))))) n h = ground arith
segment_at-Span (suc (suc (suc (suc (suc (suc zero)))))) n h = ground arith
segment_at-Span (suc (suc (suc (suc (suc (suc (suc zero))))))) n h = ground arith
segment_at-Span (suc (suc (suc (suc (suc (suc (suc (suc k)))))))) n h = absurd h

pub Span-later : (k n m : ℕ) → Span k n → n ≤ m → m < end_of k → Span k m
Span-later zero n m h le lt = lt
Span-later (suc zero) n m h le lt = (omega arith, lt)
Span-later (suc (suc zero)) n m h le lt = (omega arith, lt)
Span-later (suc (suc (suc zero))) n m h le lt = (omega arith, lt)
Span-later (suc (suc (suc (suc zero)))) n m h le lt = (omega arith, lt)
Span-later (suc (suc (suc (suc (suc zero))))) n m h le lt = (omega arith, lt)
Span-later (suc (suc (suc (suc (suc (suc zero)))))) n m h le lt = (omega arith, lt)
Span-later (suc (suc (suc (suc (suc (suc (suc zero))))))) n m h le lt = (omega arith, lt)
Span-later (suc (suc (suc (suc (suc (suc (suc (suc k)))))))) n m h le lt = absurd h

-- Whether the next round comes at the end of its segment or after, as the code computes it.
abbrev pub is_last : ℕ → ℕ → Bool
is_last k n =
    leb_ℤ ((seg_at k).temps.debut +ℤ (seg_at k).temps.period)
      (pos (28800 + n) +ℤ pos (seg_at k).intervalle_x)

abbrev pub Timed : ℕ → ℕ → Type 0
Timed k n =
    ((seg_at k).intervalle_x ≡ intervalle k) × (is_last k n ≡ leb (end_of k) (n + intervalle k))

pub seg_at-Timed : (k n : ℕ) → Span k n → Timed k n
unfolding soleil_profil ◌+ℤ◌
seg_at-Timed zero n h = (refl, ground arith)
seg_at-Timed (suc zero) n h = (refl, ground arith)
seg_at-Timed (suc (suc zero)) n h = (refl, ground arith)
seg_at-Timed (suc (suc (suc zero))) n h = (refl, ground arith)
seg_at-Timed (suc (suc (suc (suc zero)))) n h = (refl, ground arith)
seg_at-Timed (suc (suc (suc (suc (suc zero))))) n h = (refl, ground arith)
seg_at-Timed (suc (suc (suc (suc (suc (suc zero)))))) n h = (refl, ground arith)
seg_at-Timed (suc (suc (suc (suc (suc (suc (suc zero))))))) n h = (refl, ground arith)
seg_at-Timed (suc (suc (suc (suc (suc (suc (suc (suc k)))))))) n h = absurd h
