-- ===== src/Soleil/Laws.antt =====
-- A valid lamp, and what a round of `iGererCourbe` does to it.
use gest_aqua.Prelude.{ap, arith, get_elem?, inl, inr, length, negsuc, pos, refl, some, subst}
use gest_aqua.Prelude.{sym, ℕ, ℤ, ◌+◌, ◌-ℤ◌, ◌<◌, ◌∙◌, ◌≡◌, ◌≤◌, ◌⊎◌}
use gest_aqua.Config.{Courbe, ParamSoleil, SegmentSolaire, affine, log, nulle}
use gest_aqua.Double.{Double}
use gest_aqua.Pwm.{PwmGpio, set_rapport}
use gest_aqua.Soleil.{Soleil, choose_segment, find_segment, follow, gerer_courbe, leave_segment}
use gest_aqua.Soleil.Search.{at, find_segment-Found, get_elem?-lt, nowhere}

pub record IsValid {D : Type 0} (s : Soleil D) : Type 0 where
  pub fits : s.param.courbe_solaire.nb_segment ≤ length s.param.courbe_solaire.segments
  pub index_in :
      (s.index ≡ negsuc 0) ⊎ ((i : ℕ) × (s.index ≡ pos i) × (i < s.param.courbe_solaire.nb_segment))

module _ (F : Double) where
  open F use {Val, of_ℤ, add, mul, div}

  -- After the choice of a segment the parameters are those of before and the index is in range.
  choose_segment-IsValid :
      (off : ℤ) (s : Soleil Val)
      → IsValid s
      → (t : Soleil Val) × (choose_segment F off s ≡ some t)
        × IsValid t
        × (t.param ≡ s.param)
        × (t.pwm ≡ s.pwm)
  unfolding choose_segment
  choose_segment-IsValid off s v = elim (v.index_in) [
    | inr (i, e, lt) ↦ (
      record s { dx = add s.dx (of_ℤ (pos 1)) },
      ground arith,
      record { fits = v.fits; index_in = inr (i, e, lt) },
      refl,
      refl,
    )
    | inl e ↦
        elim (find_segment-Found off s.param.courbe_solaire.segments 0
          s.param.courbe_solaire.nb_segment (omega (arith, v.fits))) [
            | at k seg lt ek inside absent er ↦ (
              record s { index = pos (0 + k); intervalle_x = seg.intervalle_x; dx = of_ℤ (pos 0) },
              ground (arith, er),
              record { fits = v.fits; index_in = inr (0 + k, refl, omega arith) },
              refl,
              refl,
            )
            | nowhere absent er ↦ (s, ground (arith, er), v, refl, refl)
          ]
  ]

  -- The elapsed hours since the start of the day of the curve, as the code computes them.
  abbrev pub heures : ℤ → Soleil Val → Val
  heures off s = div (of_ℤ (off -ℤ s.param.ephemeride.debut)) (of_ℤ (pos 3600))

  -- What following a segment does to the PWM; nothing else changes.
  abbrev Followed : SegmentSolaire Val → Soleil Val → PwmGpio Val → Type 0
  Followed seg s w =
      (w ≡ s.pwm)
      ⊎ ((a : Val) × (b : Val) × (seg.courbe ≡ affine a b)
          × (w ≡ set_rapport F (add (mul a s.dx) b) s.pwm))

  follow_lem :
      (c : Courbe Val) (seg : SegmentSolaire Val) (s : Soleil Val)
      → seg.courbe ≡ c
      → Followed seg s (follow F seg s).pwm
        × ((follow F seg s).param ≡ s.param)
        × ((follow F seg s).index ≡ s.index)
  unfolding follow
  follow_lem nulle seg s e = (inl (ground arith), ground arith, ground arith)
  follow_lem (affine a b) seg s e = (inr (a, b, e, ground arith), ground arith, ground arith)
  follow_lem (log a) seg s e = (inl (ground arith), ground arith, ground arith)

  leave_segment_lem :
      (off : ℤ) (seg : SegmentSolaire Val) (s : Soleil Val)
      → let t = leave_segment F off seg s in
        (t.pwm ≡ s.pwm) × (t.param ≡ s.param) × ((t.index ≡ s.index) ⊎ (t.index ≡ negsuc 0))
  unfolding leave_segment
  leave_segment_lem off seg s = ground arith

  IsValid-parts :
      (s t : Soleil Val)
      → IsValid s
      → t.param ≡ s.param
      → (t.index ≡ s.index) ⊎ (t.index ≡ negsuc 0)
      → IsValid t
  IsValid-parts s t v p (inr e) = record { fits = rw p v.fits; index_in = inl e }
  IsValid-parts s t v p (inl e) = record { fits = rw p v.fits; index_in = rw (p, e) v.index_in }

  -- What one round of `iGererCourbe` does to the PWM.
  abbrev pub Lit : ℤ → Soleil Val → Soleil Val → Type 0
  Lit off s t =
      (t.pwm ≡ s.pwm)
      ⊎ ((i : ℕ) × (seg : SegmentSolaire Val) × (a : Val) × (b : Val) × (get_elem?
              s.param.courbe_solaire.segments i
            ≡ some seg)
          × (seg.courbe ≡ affine a b)
          × (t.pwm ≡ set_rapport F (add (mul a (heures off s)) b) s.pwm))

  Lit-Followed :
      (off : ℤ) (s s2 t : Soleil Val) (i : ℕ) (seg : SegmentSolaire Val)
      → get_elem? s.param.courbe_solaire.segments i ≡ some seg
      → s2.dx ≡ heures off s
      → s2.pwm ≡ s.pwm
      → Followed seg s2 t.pwm
      → Lit off s t
  Lit-Followed off s s2 t i seg eg ed ep (inl e) = inl (e ∙ ep)
  Lit-Followed off s s2 t i seg eg ed ep (inr (a, b, ec, e)) = inr (i, seg, a, b, eg, ec, e ∙ cc)

  gerer_courbe_tail :
      (off : ℤ) (s s1 : Soleil Val)
      → choose_segment F off s ≡ some s1
      → IsValid s1
      → s1.param ≡ s.param
      → s1.pwm ≡ s.pwm
      → (t : Soleil Val) × (gerer_courbe F off s ≡ some t)
        × IsValid t
        × (t.param ≡ s.param)
        × Lit off s t
  unfolding gerer_courbe
  gerer_courbe_tail off s s1 e1 v1 p1 w1 =
      let s2 : Soleil Val = record s1 {
        dx = div (of_ℤ (off -ℤ s1.param.ephemeride.debut)) (of_ℤ (pos 3600));
      } in
      let v2 : IsValid s2 = record { fits = v1.fits; index_in = v1.index_in } in
      elim (v1.index_in) [
        | inl none_in_force ↦ (s2, ground (arith, e1), v2, p1, inl w1)
        | inr (i, ei, lt) ↦
            let (seg, eg) =
              get_elem?-lt s1.param.courbe_solaire.segments i (omega (arith, v1.fits)) in
            let (fw, fp, fi) = follow_lem seg.courbe seg s2 refl in
            let t : Soleil Val = leave_segment F off seg (follow F seg s2) in
            let (lw, lp, li) = leave_segment_lem off seg (follow F seg s2) in
            (
              t,
              ground (arith, e1, eg, ei),
              IsValid-parts s2 t v2 (lp ∙ fp)
                  (subst (λ x. (t.index ≡ x) ⊎ (t.index ≡ negsuc 0)) fi li),
              lp ∙ fp ∙ p1,
              Lit-Followed off s s2 t i seg (rw (← p1) eg)
                  (ap
                    (λ (q : ParamSoleil Val).
                      div (of_ℤ (off -ℤ q.ephemeride.debut)) (of_ℤ (pos 3600)))
                    p1)
                  w1 (subst (Followed seg s2) (sym lw) fw),
            )
      ]

  -- On a valid object `iGererCourbe` reads no segment past the array and leaves a valid object with
  -- the same parameters; the PWM is left alone, or set to `a * x + b` at the elapsed hours `x` for a
  -- segment of the curve with these coefficients.
  pub gerer_courbe-IsValid :
      (off : ℤ) (s : Soleil Val)
      → IsValid s
      → (t : Soleil Val) × (gerer_courbe F off s ≡ some t)
        × IsValid t
        × (t.param ≡ s.param)
        × Lit off s t
  gerer_courbe-IsValid off s v =
      let (s1, e1, v1, p1, w1) = choose_segment-IsValid off s v in
      gerer_courbe_tail off s s1 e1 v1 p1 w1

  -- A round with no segment in force, in which the search finds one.
  pub gerer_courbe_found :
      (off : ℤ) (s : Soleil Val) (k : ℕ) (seg : SegmentSolaire Val)
      → s.index ≡ negsuc 0
      → find_segment off s.param.courbe_solaire.segments 0 s.param.courbe_solaire.nb_segment
        ≡ some (some (k, seg))
      → get_elem? s.param.courbe_solaire.segments k ≡ some seg
      → gerer_courbe F off s
        ≡ some (
            leave_segment F off seg (
              follow F seg
                (record s { index = pos k; intervalle_x = seg.intervalle_x; dx = heures off s })))
  unfolding gerer_courbe choose_segment
  gerer_courbe_found off s k seg ei ef eg = ground (arith, ef, eg)

  -- Following an affine segment sets the PWM, whether or not the segment is then left.
  pub pwm-leave_segment :
      (off : ℤ) (seg : SegmentSolaire Val) (s : Soleil Val) (a b : Val)
      → seg.courbe ≡ affine a b
      → (leave_segment F off seg (follow F seg s)).pwm ≡ set_rapport F (add (mul a s.dx) b) s.pwm
  unfolding leave_segment follow
  pwm-leave_segment off seg s a b e = ground (arith, e)
