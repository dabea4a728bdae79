-- ===== src/RegDebug/Clock.antt =====
-- regdebug.c: the camera's clock, of which `set_mclk_rate` looks for a rate that the hardware has.
use gest_aqua.Prelude.{Bool, Bool-cases, arith, if◌then◌else◌, inl, inr, leb, leb→le, refl}
use gest_aqua.Prelude.{subst, suc, u32, zero, ℕ, ◌*◌, ◌+◌, ◌-◌, ◌/◌, ◌<◌, ◌==◌, ◌≡◌, ◌≤◌, ◌⊎◌}
use gest_aqua.RegDebug.{Board, Platform}

-- The eighth part of the rate asked, by which a try is lower than the one before.
abbrev pub step : ℕ → ℕ
step p = p / 8

-- The loop of `set_mclk_rate` from its try `i`, with `n` tries left; `freq` is what the last gave.
-- The rate asked, less `i` steps, does not fall below 0.
abbrev pub rate_tries : (ℕ → ℕ) → ℕ → ℕ → ℕ → ℕ → ℕ
rate_tries rounded p zero i freq = freq
rate_tries rounded p (suc n) i freq =
    let freq' = u32 (rounded (p - i * step p)) in
    let lower = rate_tries rounded p n (i + 1) freq' in if leb freq' p then freq' else lower

module _ {S : Type 0} (k : Platform S) where
  -- `set_mclk_rate`
  unfoldable pub set_mclk_rate : ℕ → Board S → Board S
  set_mclk_rate p b =
      let freq = rate_tries (λ r. k.clk_round_rate r b.hw) p 9 0 0 in
      record b { hw = k.clk_set_rate freq b.hw; rate = freq }

  -- `ipu_csi_enable_mclk (CSI_MCLK_I2C, on, true)`
  unfoldable pub enable_mclk : Bool → Board S → Board S
  enable_mclk on b = record b { hw = k.ipu_csi_enable_mclk on b.hw; mclk = on }

-- What the try `i` gives.
abbrev pub candidate : (ℕ → ℕ) → ℕ → ℕ → ℕ
candidate rounded p i = u32 (rounded (p - i * step p))

-- `freq` is what the first try from `i` on gives that is no more than the rate asked, or what the try
-- 8 gives when all give more.
abbrev pub IsFirst : (ℕ → ℕ) → ℕ → ℕ → ℕ → Type 0
IsFirst rounded p i freq =
    (j : ℕ) × (i ≤ j)
    × (j ≤ 8)
    × (freq ≡ candidate rounded p j)
    × ((freq ≤ p) ⊎ (j ≡ 8))
    × ((m : ℕ) → i ≤ m → m < j → p < candidate rounded p m)

lower-IsFirst :
    (rounded : ℕ → ℕ) (p i freq : ℕ)
    → p < candidate rounded p i
    → IsFirst rounded p (i + 1) freq
    → IsFirst rounded p i freq
lower-IsFirst rounded p i freq high (j, a, b, same, low, before) =
    let all : (m : ℕ) → i ≤ m → m < j → p < candidate rounded p m = λ m c d.
      elim (Bool-cases (i == m)) [
        | inl e ↦
            let here : i ≡ m = ground arith in subst (λ x. p < candidate rounded p x) here high
        | inr e ↦ before m (ground arith) d
      ] in
    (j, omega arith, b, same, low, all)

rate_tries-IsFirst :
    (rounded : ℕ → ℕ) (p n i freq : ℕ)
    → i + n ≡ 8
    → IsFirst rounded p i (rate_tries rounded p (suc n) i freq)
rate_tries-IsFirst rounded p zero i freq h =
    let same : rate_tries rounded p 1 i freq ≡ candidate rounded p i = ground arith in
    rw same (i, omega arith, omega arith, refl, inr (omega arith), λ m a b. absurd (omega arith))
rate_tries-IsFirst rounded p (suc n) i freq h = elim (Bool-cases (leb (candidate rounded p i) p)) [
  | inl e ↦
      let low : candidate rounded p i ≤ p = leb→le (candidate rounded p i) p e in
      rw e (i, omega arith, omega arith, refl, inl low, λ m a b. absurd (omega arith))
  | inr e ↦
      let lower = rate_tries-IsFirst rounded p n (i + 1) (candidate rounded p i) (omega arith) in
      rw e (
        lower-IsFirst rounded p i (rate_tries rounded p (suc n) (i + 1) (candidate rounded p i))
          (ground arith) lower)
]

-- `set_mclk_rate` sets, of the rates that the clock gives for the rate asked and for the same less
-- one to eight eighths of it, the first that is no more than the rate asked, in 32 bits; when all
-- are more, it sets the last. It changes nothing else of what the driver asked of the clock.
pub set_mclk_rate_lem :
    {S : Type 0} (k : Platform S) (p : ℕ) (b : Board S)
    → let b' = set_mclk_rate k p b in
      IsFirst (λ r. k.clk_round_rate r b.hw) p 0 b'.rate
      × (b'.hw ≡ k.clk_set_rate b'.rate b.hw)
      × (b'.mclk ≡ b.mclk)
unfolding set_mclk_rate
set_mclk_rate_lem k p b =
    (rate_tries-IsFirst (λ r. k.clk_round_rate r b.hw) p 8 0 0 refl, refl, refl)
