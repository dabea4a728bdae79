-- ===== src/Config/Change.antt =====
-- What `pstInit` leaves in the parameters: the tables, and the bits that say that they changed.
use gest_aqua.Prelude.{List, [], arith, bit_or, length, pos, refl, some, ℕ, ℤ, ◌%◌, ◌*◌, ◌∷◌}
use gest_aqua.Prelude.{◌≡◌}
use gest_aqua.Config.{DefPlanification, ParametreAppli, heure, max_planif_profil, max_profil}
use gest_aqua.Config.{profil}
use gest_aqua.Config.Init.{Memcmp, init_planifs, init_profils, low_bit, pst_init}
use gest_aqua.Double.{Double}

even_missed : (b : ℕ) (x : ℤ) (k : ℕ) → b ≡ 0 → x ≡ pos (2 * k) → bit_or b (low_bit x) ≡ 0
even_missed b x k z e = let even : 2 * k % 2 ≡ 0 = omega arith in rw (z, e, low_bit, even)

module _ (F : Double) where
  open F use {Val}

  -- The two plans of `sInitPlanification`.
  abbrev pub default_planifs : List DefPlanification
  default_planifs =
      record {
        numero_planif = 1;
        numero_profil = 1;
        planif = record { etype = profil; debut = heure 8; period = heure 12; relance = pos 0 };
      }
      ∷ record {
        numero_planif = 2;
        numero_profil = 2;
        planif = record { etype = profil; debut = heure 20; period = heure 12; relance = pos 0 };
      }
      ∷ []

  planifs-default :
      (ds : List DefPlanification)
      → length ds ≡ max_planif_profil
      → init_planifs F 0 ds ≡ default_planifs
  unfolding init_planifs
  planifs-default [] h = absurd (omega arith)
  planifs-default (d ∷ []) h = absurd (omega arith)
  planifs-default (d ∷ e ∷ []) h = refl
  planifs-default (d ∷ e ∷ x ∷ ds) h = absurd (omega arith)

  -- Whatever the parameters were before, `pstInit` returns the parameters, never the null pointer, and
  -- the tables are then the built-in ones: the profiles of `sInitProfil` and the plans from 8 h and
  -- from 20 h for twelve hours each. Each bit of change keeps its value or is set by the lowest bit
  -- of the comparison of the table with what it was.
  pub pst_init_lem :
      (cmp : Memcmp Val) (old : ParametreAppli Val)
      → length old.planifs ≡ max_planif_profil
      → (r : ParametreAppli Val) × (pst_init F cmp old ≡ (r, some r))
        × (r.profils ≡ init_profils F max_profil 0)
        × (r.planifs ≡ default_planifs)
        × (r.change.param_profil
            ≡ bit_or old.change.param_profil (low_bit (cmp.profils old.profils r.profils)))
        × (r.change.param_planif_profil
            ≡ bit_or old.change.param_planif_profil (low_bit (cmp.planifs old.planifs r.planifs)))
  unfolding pst_init
  pst_init_lem cmp old h =
      ((pst_init F cmp old).0, refl, refl, planifs-default old.planifs h, refl, refl)

  -- A comparison that finds the profiles different and answers with an even number, as the C
  -- library may, leaves a clear bit clear: the change is missed.
  pub change_missed :
      (cmp : Memcmp Val) (old : ParametreAppli Val) (k : ℕ)
      → cmp.profils old.profils (pst_init F cmp old).0.profils ≡ pos (2 * k)
      → old.change.param_profil ≡ 0
      → (pst_init F cmp old).0.change.param_profil ≡ 0
  unfolding pst_init
  change_missed cmp old k e z = even_missed old.change.param_profil _ k z e
