-- ===== src/Soleil/Search.antt =====
-- The search of `iGererCourbe` for the segment in force.
-- Whether the segment at an index holds the offset.
use gest_aqua.Prelude.{Bool, Bool-cases, List, Option, [], add-zero, arith, false, get_elem?}
use gest_aqua.Prelude.{if◌then◌else◌, inl, inr, length, none, refl, some, suc, true, zero, ℕ, ℤ}
use gest_aqua.Prelude.{◌+◌, ◌<◌, ◌∷◌, ◌≡◌, ◌≤◌}
use gest_aqua.Config.{SegmentSolaire}
use gest_aqua.Soleil.{find_segment, in_segment}

abbrev pub holds_at : {D : Type 0} → ℤ → List (SegmentSolaire D) → ℕ → Bool
holds_at off segments i = elim (get_elem? segments i) [ none ↦ false | some s ↦ in_segment off s ]

-- None of the `n` segments from index `i` on holds the offset.
abbrev pub Absent : {D : Type 0} → ℤ → List (SegmentSolaire D) → ℕ → ℕ → Type 0
Absent off segments i zero = Unit
Absent off segments i (suc n) = (holds_at off segments i ≡ false) × Absent off segments (i + 1) n

-- What a search of `n` segments from index `i` on may answer: the first segment that holds the
-- offset, or none if there is none.
pub data Found {D : Type 0} (off : ℤ) (segments : List (SegmentSolaire D)) (i n : ℕ)
    (r : Option (Option (ℕ × SegmentSolaire D))) : Type 0 where
  at :
      (k : ℕ) (s : SegmentSolaire D)
      → k < n
      → get_elem? segments (i + k) ≡ some s
      → in_segment off s ≡ true
      → Absent off segments i k
      → r ≡ some (some (i + k, s))
      → Found off segments i n r
  nowhere : Absent off segments i n → r ≡ some none → Found off segments i n r

pub get_elem?-lt :
    {A : Type 0} (xs : List A) (i : ℕ) → i < length xs → (x : A) × (get_elem? xs i ≡ some x)
get_elem?-lt [] i h = absurd (omega arith)
get_elem?-lt (x ∷ xs) zero h = (x, refl)
get_elem?-lt (x ∷ xs) (suc i) h = get_elem?-lt xs i (omega arith)

Found-suc :
    {D : Type 0} (off : ℤ) (segments : List (SegmentSolaire D)) (i n : ℕ)
    (r : Option (Option (ℕ × SegmentSolaire D)))
    → holds_at off segments i ≡ false
    → Found off segments (i + 1) n r
    → Found off segments i (suc n) r
Found-suc off segments i n r here (at k s lt e inside absent er) =
    let shift : i + suc k ≡ i + 1 + k = omega arith in
    at (suc k) s (omega arith) (rw shift e) inside (here, absent) (rw shift er)
Found-suc off segments i n r here (nowhere absent er) = nowhere (here, absent) er

-- One round of the search.
find_segment-suc :
    {D : Type 0} (off : ℤ) (segments : List (SegmentSolaire D)) (i n : ℕ) (s : SegmentSolaire D)
    → get_elem? segments i ≡ some s
    → find_segment off segments i (suc n)
      ≡ (if in_segment off s then some (some (i, s)) else find_segment off segments (i + 1) n)
unfolding find_segment
find_segment-suc off segments i n s e = rw (e, find_segment)

-- The search of `n` segments from index `i` on, in an array that has them all, returns the first of
-- them that holds the offset, with its index, and none of those before it holds the offset; or it
-- returns that there is none, and none of the `n` holds the offset. It reads nothing past the array.
pub find_segment-Found :
    {D : Type 0} (off : ℤ) (segments : List (SegmentSolaire D)) (i n : ℕ)
    → i + n ≤ length segments
    → Found off segments i n (find_segment off segments i n)
find_segment-Found off segments i zero h = nowhere tt (unfold find_segment in refl)
find_segment-Found off segments i (suc n) h =
    let (s, e) = get_elem?-lt segments i (omega arith) in
    let rest = find_segment-Found off segments (i + 1) n (omega arith) in
    elim (Bool-cases (in_segment off s)) [
      | inl inside ↦
          at 0 s (omega arith) (rw add-zero e) inside tt
            (rw (find_segment-suc off segments i n s e, inside, add-zero))
      | inr outside ↦
          rw (find_segment-suc off segments i n s e, outside)
            (Found-suc off segments i n _ (rw (e, holds_at) outside) rest)
    ]
