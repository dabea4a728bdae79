-- ===== src/FileLog/Dated.antt =====
-- The names of the files of the days: their order as texts is that of the days.
-- A day that a name can tell: the year has four digits, the month and the day two.
use gest_aqua.Prelude.{Bool, Bool-cases, List, [], arith, if◌then◌else◌, inl, inr, leb, length}
use gest_aqua.Prelude.{length-append, ltb, refl, true, ℕ, ◌%◌, ◌++◌, ◌+◌, ◌/◌, ◌<◌, ◌==◌, ◌∙◌}
use gest_aqua.Prelude.{◌∷◌, ◌≡◌}
use gest_aqua.FileLog.{Day, digits, leb_str, log_name, padded, txt}

abbrev pub IsDay : Day → Type 0
IsDay d = (d.tm_year < 8100) × (d.tm_mon < 12) × (d.tm_mday < 32)

-- No later than.
abbrev pub leb_day : Day → Day → Bool
leb_day a b =
    if a.tm_year == b.tm_year
    then if a.tm_mon == b.tm_mon then leb a.tm_mday b.tm_mday else ltb a.tm_mon b.tm_mon
    else ltb a.tm_year b.tm_year

-- Two digits.
abbrev two : ℕ → List ℕ → List ℕ
two n s = (48 + n / 10) ∷ (48 + n % 10) ∷ s

padded-two : (n : ℕ) (s : List ℕ) → n < 100 → padded 2 n ++ s ≡ two n s
unfolding padded digits
padded-two n s h = elim (Bool-cases (ltb n 10)) [
  | inl e ↦ rw e (ground arith)
  | inr e ↦ let f : ltb (n / 10) 10 ≡ true = ground arith in rw (e, f) (ground arith)
]

padded-four : (n : ℕ) (s : List ℕ) → n < 10000 → padded 4 n ++ s ≡ two (n / 100) (two (n % 100) s)
unfolding padded digits
padded-four n s h = elim (Bool-cases (ltb n 10)) [
  | inl e ↦ rw e (ground arith)
  | inr e ↦ elim (Bool-cases (ltb (n / 10) 10)) [
    | inl e1 ↦ rw (e, e1) (ground arith)
    | inr e1 ↦ elim (Bool-cases (ltb (n / 10 / 10) 10)) [
      | inl e2 ↦ rw (e, e1, e2) (ground arith)
      | inr e2 ↦
          let e3 : ltb (n / 10 / 10 / 10) 10 ≡ true = ground arith in
          rw (e, e1, e2, e3) (ground arith)
    ]
  ]
]

leb_str-two :
    (m n : ℕ) (s t : List ℕ)
    → m < 100
    → n < 100
    → leb_str (two m s) (two n t) ≡ (if m == n then leb_str s t else ltb m n)
unfolding leb_str
leb_str-two m n s t hm hn = ground arith

leb_str-append : (p s t : List ℕ) → leb_str (p ++ s) (p ++ t) ≡ leb_str s t
unfolding leb_str
leb_str-append [] s t = refl
leb_str-append (x ∷ p) s t = ground (arith, leb_str-append p s t)

leb_str_refl : (s : List ℕ) → leb_str s s ≡ true
unfolding leb_str
leb_str_refl [] = refl
leb_str_refl (x ∷ s) = ground (arith, leb_str_refl s)

-- The part of a name that tells the day.
abbrev after_name : Day → List ℕ
after_name d =
    padded 4 (d.tm_year + 1900) ++ (padded 2 (d.tm_mon + 1) ++ (padded 2 d.tm_mday ++ txt))

leb_str-after_name :
    (a b : Day) → IsDay a → IsDay b → leb_str (after_name a) (after_name b) ≡ leb_day a b
leb_str-after_name a b ha hb =
    let (ya, ma, da) = ha in
    let (yb, mb, db) = hb in
    let za = a.tm_year + 1900 in
    let zb = b.tm_year + 1900 in
    rw
      (
        padded-two a.tm_mday txt (omega arith),
        padded-two b.tm_mday txt (omega arith),
        padded-two (a.tm_mon + 1) (two a.tm_mday txt) (omega arith),
        padded-two (b.tm_mon + 1) (two b.tm_mday txt) (omega arith),
        padded-four za (two (a.tm_mon + 1) (two a.tm_mday txt)) (omega arith),
        padded-four zb (two (b.tm_mon + 1) (two b.tm_mday txt)) (omega arith),
        leb_str-two (za / 100) (zb / 100) (two (za % 100) (two (a.tm_mon + 1) (two a.tm_mday txt)))
            (two (zb % 100) (two (b.tm_mon + 1) (two b.tm_mday txt))) (omega arith) (omega arith),
        leb_str-two (za % 100) (zb % 100) (two (a.tm_mon + 1) (two a.tm_mday txt))
            (two (b.tm_mon + 1) (two b.tm_mday txt)) (omega arith) (omega arith),
        leb_str-two (a.tm_mon + 1) (b.tm_mon + 1) (two a.tm_mday txt) (two b.tm_mday txt)
            (omega arith) (omega arith),
        leb_str-two a.tm_mday b.tm_mday txt txt (omega arith) (omega arith),
        leb_str_refl txt,
      )
      (ground arith)

-- Two names of one log compare as their days do.
pub leb_str-log_name :
    (name : List ℕ) (a b : Day)
    → IsDay a
    → IsDay b
    → leb_str (log_name name a) (log_name name b) ≡ leb_day a b
unfolding log_name
leb_str-log_name name a b ha hb =
    leb_str-append name (45 ∷ after_name a) (45 ∷ after_name b)
    ∙ leb_str-append (45 ∷ []) (after_name a) (after_name b)
    ∙ leb_str-after_name a b ha hb

pub length-log_name :
    (name : List ℕ) (d : Day) → IsDay d → length (log_name name d) ≡ length name + 13
unfolding log_name
length-log_name name d (y, m, day) =
    rw
      (
        length-append name (45 ∷ after_name d),
        padded-two d.tm_mday txt (omega arith),
        padded-two (d.tm_mon + 1) (two d.tm_mday txt) (omega arith),
        padded-four (d.tm_year + 1900) (two (d.tm_mon + 1) (two d.tm_mday txt)) (omega arith),
      )
      refl
