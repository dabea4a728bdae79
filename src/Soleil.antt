-- ===== src/Soleil.antt =====
-- Soleil.h and Soleil.cpp: `CSoleil`, which follows the curve of a profile with a PWM output.
pub mod Search
pub mod Laws
pub mod Values
pub mod Loop
pub mod Segments
pub mod Rounds
pub mod Followed
pub mod Late
use gest_aqua.Prelude.{Bool, List, Option, [], eq_ℤ, false, get_elem?, if◌then◌else◌, leb_ℤ}
use gest_aqua.Prelude.{ltb_ℤ, negsuc, none, pos, some, suc, zero, ℕ, ℤ, ◌&&◌, ◌*◌, ◌+ℤ◌, ◌+◌}
use gest_aqua.Prelude.{◌-ℤ◌, ◌>>=◌, ◌^◌, ◌∷◌}
use gest_aqua.Config.{ParamSoleil, SegmentSolaire, affine}
use gest_aqua.Double.{Double}
use gest_aqua.Gpio.{Gpio}
use gest_aqua.Pwm.{PwmGpio, i_init, i_start, i_stop, set_rapport}
use gest_aqua.Thread.{CThread, Next, Os, Round, again, leave, select_loop}

-- `index` is `sIndexlSegment`, -1 between two segments.
pub record Soleil (D : Type 0) : Type 0 where
  pub thread : CThread
  pub param : ParamSoleil D
  pub pwm : PwmGpio D
  pub index : ℤ
  pub intervalle_x : ℕ
  pub dx : D

-- GPIO_16
abbrev pub gpio_16 : ℕ
gpio_16 = 0 * 2 ^ 5 + 16

-- Whether an offset from midnight lies in the time of a segment.
unfoldable pub in_segment : {D : Type 0} → ℤ → SegmentSolaire D → Bool
in_segment off s = leb_ℤ s.temps.debut off && ltb_ℤ off (s.temps.debut +ℤ s.temps.period)

-- The search of `iGererCourbe` at index `i`, with `n` rounds left: the first segment that holds the
-- offset. The outer `none` is a read past the array.
unfoldable pub find_segment :
    {D : Type 0} → ℤ → List (SegmentSolaire D) → ℕ → ℕ → Option (Option (ℕ × SegmentSolaire D))
unfolding in_segment
find_segment off segments i zero = some none
find_segment off segments i (suc n) =
    let rest = find_segment off segments (i + 1) n in
    elim (get_elem? segments i) [
      | none ↦ none
      | some s ↦ if in_segment off s then some (some (i, s)) else rest
    ]

module _ (F : Double) where
  open F use {Val, of_ℤ, tenths, add, mul, div}

  -- The constructor, on the objects that its parts' constructors build: `iInit` of the PWM on GPIO_16
  -- at 1000 Hz with a duty of 1.
  unfoldable pub new_soleil :
      CThread → PwmGpio Val → (dx : Val) → ParamSoleil Val → Gpio → Option (Soleil Val × Gpio)
  unfolding i_init
  new_soleil thread pwm dx param g = do
    (p, g') ← i_init F gpio_16 1000 (tenths (pos 10)) pwm g
    some (
      record {
        thread = thread;
        param = param;
        pwm = p;
        index = negsuc 0;
        intervalle_x = 1;
        dx = dx;
      },
      g',
    )

  -- First part of `iGererCourbe`: choose the segment if there is none, and set `dX`.
  unfoldable pub choose_segment : ℤ → Soleil Val → Option (Soleil Val)
  unfolding find_segment
  choose_segment off s =
      if eq_ℤ s.index (negsuc 0)
      then (find_segment off s.param.courbe_solaire.segments 0 s.param.courbe_solaire.nb_segment
          >>= elim [
            | none ↦ some s
            | some (i, seg) ↦
                some
                  (record s { index = pos i; intervalle_x = seg.intervalle_x; dx = of_ℤ (pos 0) })
          ])
      else some (record s { dx = add s.dx (of_ℤ (pos 1)) })

  -- The value of an affine segment goes to the PWM; another kind of segment changes nothing.
  unfoldable pub follow : SegmentSolaire Val → Soleil Val → Soleil Val
  unfolding set_rapport
  follow seg s = elim (seg.courbe) [
    | affine a b ↦ record s { pwm = set_rapport F (add (mul a s.dx) b) s.pwm }
    | _ ↦ s
  ]

  -- The segment is left when the next round would come at its end or after.
  unfoldable pub leave_segment : ℤ → SegmentSolaire Val → Soleil Val → Soleil Val
  leave_segment off seg s =
      if leb_ℤ (seg.temps.debut +ℤ seg.temps.period) (off +ℤ pos seg.intervalle_x)
      then record s { index = negsuc 0 }
      else s

  -- `iGererCourbe`; the offset is that of `tGetOffsetFromMidnight`.
  unfoldable pub gerer_courbe : ℤ → Soleil Val → Option (Soleil Val)
  unfolding choose_segment follow leave_segment
  gerer_courbe off s = do
    s1 ← choose_segment off s
    let s2 = record s1 { dx = div (of_ℤ (off -ℤ s1.param.ephemeride.debut)) (of_ℤ (pos 3600)) }
    elim (s2.index) [
      | pos i ↦
          (get_elem? s2.param.courbe_solaire.segments i >>= λ seg.
          some (leave_segment off seg (follow seg s2)))
      | negsuc _ ↦ some s2
    ]

  -- What the loop of `Thread` does when its time is up, on the offsets to come; the lamp is `none`
  -- after a read past the array.
  unfoldable pub soleil_tick : Option (Soleil Val) × List ℤ → (Option (Soleil Val) × List ℤ) × Next
  soleil_tick (lamp, []) = ((lamp, []), again)
  soleil_tick (lamp, off ∷ offs) = ((lamp >>= gerer_courbe off, offs), again)

  -- `Thread`: the PWM runs while the loop does.
  unfoldable pub thread_soleil : Os → List Round → List ℤ → Soleil Val → Option (Soleil Val) × Next
  unfolding soleil_tick
  thread_soleil os rounds offs s =
      if eq_ℤ s.thread.pipe_r (negsuc 0)
      then (some s, leave)
      else let on = record s { pwm = i_start F os s.pwm } in
        let ((lamp, rest), next) = select_loop false soleil_tick rounds (some on, offs) in
        elim next [
          | again ↦ (lamp, again)
          | leave ↦ (lamp >>= λ t. some (record t { pwm = i_stop F t.pwm }), leave)
        ]
