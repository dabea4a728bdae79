-- ===== src/Soleil/Rounds.antt =====
-- Rounds of a lamp's thread in which `select` comes to the end of its time.
use gest_aqua.Prelude.{List, [], false, pos, refl, some, ℕ, ℤ, ◌+◌, ◌<◌, ◌∷◌, ◌≡◌, ◌≤◌}
use gest_aqua.Double.Exact.{Ratio, exact}
use gest_aqua.Soleil.{Soleil, gerer_courbe, soleil_tick}
use gest_aqua.Soleil.Segments.{intervalle, segment_at}
use gest_aqua.Thread.{Round, round, select_loop, timeout}

-- Rounds that come one after another, each at the latest when the time between two rounds in the
-- segment of the one before it is over.
abbrev pub OnTime : ℕ → List ℕ → Type 0
OnTime n [] = n < 43200
OnTime n (m ∷ ms) = (n < 43200) × (n ≤ m) × (m ≤ n + intervalle (segment_at n)) × OnTime m ms

abbrev pub last_of : ℕ → List ℕ → ℕ
last_of n [] = n
last_of n (m ∷ ms) = last_of m ms

pub OnTime-lt : (n : ℕ) (ns : List ℕ) → OnTime n ns → n < 43200
OnTime-lt n [] h = h
OnTime-lt n (m ∷ ms) (h, _, _, _) = h

-- The rounds in which `select` comes to the end of its time, and their times of day.
abbrev pub expiries : List ℕ → List Round
expiries [] = []
expiries (n ∷ ns) = record { arret = 0; select = timeout; arret_after = 0 } ∷ expiries ns

abbrev pub offsets : List ℕ → List ℤ
offsets [] = []
offsets (n ∷ ns) = pos (28800 + n) ∷ offsets ns

pub select_loop-expires :
    (n : ℕ) (ns : List ℕ) (s t : Soleil Ratio)
    → gerer_courbe exact (pos (28800 + n)) s ≡ some t
    → select_loop false (soleil_tick exact) (expiries (n ∷ ns)) (some s, offsets (n ∷ ns))
      ≡ select_loop false (soleil_tick exact) (expiries ns) (some t, offsets ns)
unfolding select_loop soleil_tick round
select_loop-expires n ns s t e = rw e refl
