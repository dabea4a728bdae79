-- ===== src/PowerCam/Following.antt =====
-- The rows of a ring of ten that follow a row, which both rings of the driver have.
-- What the rows after a row hold.
use gest_aqua.Prelude.{List, [], add-zero, ap, ap₂, arith, length, refl, suc, zero, ℕ, ◌%◌, ◌++◌}
use gest_aqua.Prelude.{◌+◌, ◌<◌, ◌∙◌, ◌∷◌, ◌≡◌, ◌≢◌}
use gest_aqua.PowerCam.{Kernel}
use gest_aqua.PowerCam.Ring.{advance}

abbrev pub following {ℓ} : {A : Type ℓ} → (ℕ → A) → ℕ → ℕ → List A
following f i zero = []
following f i (suc n) = let j = (i + 1) % 10 in f j ∷ following f j n

pub advance_lem : (k : Kernel) (i : ℕ) → i < 10 → advance k i ≡ (i + 1) % 10
unfolding advance
advance_lem k i h = ground arith

pub length-following {ℓ} : {A : Type ℓ} (f : ℕ → A) (i n : ℕ) → length (following f i n) ≡ n
length-following f i zero = refl
length-following f i (suc n) = ap suc (length-following f ((i + 1) % 10) n)

pub following-snoc {ℓ} :
    {A : Type ℓ} (f : ℕ → A) (i n : ℕ)
    → following f i (suc n) ≡ following f i n ++ f ((i + n + 1) % 10) ∷ []
following-snoc f i zero = rw (add-zero i) refl
following-snoc f i (suc n) =
    let e : ((i + 1) % 10 + n + 1) % 10 ≡ (i + suc n + 1) % 10 = omega arith in
    let ih = following-snoc f ((i + 1) % 10) n in ap (λ l. f ((i + 1) % 10) ∷ l) ih ∙ rw e refl

-- A row that is not among those that follow has no part in what they hold.
pub following-agree {ℓ} :
    {A : Type ℓ} (f g : ℕ → A) (i n r : ℕ)
    → r ≡ (i + n + 1) % 10
    → n < 10
    → ((j : ℕ) → j ≢ r → f j ≡ g j)
    → following f i n ≡ following g i n
following-agree f g i zero r e h same = refl
following-agree f g i (suc n) r e h same =
    let ne : (i + 1) % 10 ≢ r = ground arith in
    ap₂ (λ x l. x ∷ l) (same ((i + 1) % 10) ne)
      (following-agree f g ((i + 1) % 10) n r (omega arith) (omega arith) same)
