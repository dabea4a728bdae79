-- ===== src/Config/Init.antt =====
-- BaseSqlite.cpp: `pstInit`, `sInitProfil` and `sInitPlanification`.
use gest_aqua.Prelude.{List, Option, [], bit_or, eq_ℤ, if◌then◌else◌, negsuc, none, pos}
use gest_aqua.Prelude.{replicate, some, suc, zero, ℕ, ℤ, ◌%◌, ◌&&◌, ◌++◌, ◌+ℤ◌, ◌+◌, ◌/◌, ◌==◌}
use gest_aqua.Prelude.{◌∷◌}
use gest_aqua.Config.{DefPlanification, ParamProfil, ParamSoleil, ParametreAppli}
use gest_aqua.Config.{PlanificationTache, SegmentSolaire, affine, heure, inconnu}
use gest_aqua.Config.{max_planif_profil, max_profil, nulle, profil, soleil}
use gest_aqua.Double.{Double}

-- What `memset (…, 0, …)` leaves.
abbrev pub zero_planif : PlanificationTache
zero_planif = record { etype = inconnu; debut = pos 0; period = pos 0; relance = pos 0 }

-- "Profil%02d" for a number below 100, as bytes.
nom_profil : ℕ → List ℕ
nom_profil n = b'P' ∷ b'r' ∷ b'o' ∷ b'f' ∷ b'i' ∷ b'l' ∷ (b'0' + n / 10) ∷ (b'0' + n % 10) ∷ []

module _ (F : Double) where
  open F use {Val, tenths}

  unfoldable pub zero_segment : SegmentSolaire Val
  zero_segment = record { temps = zero_planif; intervalle_x = 0; courbe = nulle }

  pub zero_profil : ParamProfil Val
  unfolding zero_segment
  zero_profil = record {
    nom = [];
    numero_profil = 0;
    param_soleil = record {
      valide = 0;
      azimut = 0;
      ephemeride = zero_planif;
      courbe_solaire = record { nb_segment = 0; segments = replicate 32 zero_segment };
    };
  }

  -- One row of assignments for `lSegment [i]`: the period, `usIntervalleX`, and `dA` and `dB` in
  -- tenths. Each segment begins where the one before it ends.
  unfoldable pub segments_from : ℤ → List (ℤ × ℕ × ℤ × ℤ) → List (SegmentSolaire Val)
  segments_from debut [] = []
  segments_from debut ((period, intervalle, a, b) ∷ rows) =
      record {
        temps = record { etype = inconnu; debut = debut; period = period; relance = pos 0 };
        intervalle_x = intervalle;
        courbe = affine (tenths a) (tenths b);
      }
      ∷ segments_from (debut +ℤ period) rows

  abbrev pub rows_profil : List (ℤ × ℕ × ℤ × ℤ)
  rows_profil =
      (heure 1, 1, pos 375, pos 125)
      ∷ (heure 2, 1, pos 150, pos 350)
      ∷ (heure 2, 60, pos 75, pos 575)
      ∷ (heure 1, 30, pos 50, pos 700)
      ∷ (heure 1, 30, negsuc 49, pos 1300)
      ∷ (heure 2, 60, negsuc 74, pos 1475)
      ∷ (heure 2, 1, negsuc 149, pos 2150)
      ∷ (heure 1, 1, negsuc 374, pos 4625)
      ∷ []

  abbrev pub ephemeride_profil : PlanificationTache
  ephemeride_profil = record { etype = soleil; debut = heure 8; period = heure 12; relance = pos 0 }

  -- `case 0` of the switch in `sInitProfil`, on the zeroed profile.
  unfoldable pub soleil_profil : ParamSoleil Val
  unfolding segments_from zero_segment
  soleil_profil = record {
    valide = 1;
    azimut = 100;
    ephemeride = ephemeride_profil;
    courbe_solaire = record {
      nb_segment = 8;
      segments = segments_from (heure 8) rows_profil ++ replicate 24 zero_segment;
    };
  }

  -- The body of the loop of `sInitProfil` for one index.
  init_profil : ℕ → ParamProfil Val
  unfolding soleil_profil zero_profil nom_profil
  init_profil i =
      let named = record zero_profil { nom = nom_profil (i + 1); numero_profil = i + 1 } in
      if i == 0 then record named { param_soleil = soleil_profil } else named

  -- The loop over the indices from `i` on, with `n` rounds left.
  unfoldable pub init_profils : ℕ → ℕ → List (ParamProfil Val)
  unfolding init_profil
  init_profils zero i = []
  init_profils (suc n) i = init_profil i ∷ init_profils n (i + 1)

  -- Each function returns its `sErr` beside the parameters.
  unfoldable pub s_init_profil : ParametreAppli Val → ParametreAppli Val × ℤ
  unfolding init_profils
  s_init_profil p = (record p { profils = init_profils max_profil 0 }, pos 0)

  -- The body of the loop of `sInitPlanification`: it assigns every field but, past the two cases,
  -- those of the switch.
  init_planif : ℕ → DefPlanification → DefPlanification
  init_planif i d =
      let numbered = record d { numero_planif = i + 1 } in
      let base = record (d.planif) { etype = profil; relance = pos 0 } in
      if i == 0
      then record numbered {
        numero_profil = 1;
        planif = record base { debut = heure 8; period = heure 12 };
      }
      else if i == 1
      then record numbered {
        numero_profil = 2;
        planif = record base { debut = heure 20; period = heure 12 };
      }
      else record numbered { planif = base }

  unfoldable pub init_planifs : ℕ → List DefPlanification → List DefPlanification
  unfolding init_planif
  init_planifs i [] = []
  init_planifs i (d ∷ ds) = init_planif i d ∷ init_planifs (i + 1) ds

  unfoldable pub s_init_planification : ParametreAppli Val → ParametreAppli Val × ℤ
  unfolding init_planifs
  s_init_planification p = (record p { planifs = init_planifs 0 p.planifs }, pos 0)

-- `bit |= x` on a field of one bit: only the lowest bit of the `int` on the right is kept.
abbrev pub low_bit : ℤ → ℕ
low_bit (pos n) = n % 2
low_bit (negsuc n) = (n + 1) % 2

-- The C library's `memcmp`, on the two tables of the parameters.
pub record Memcmp (D : Type 0) : Type 0 where
  pub profils : List (ParamProfil D) → List (ParamProfil D) → ℤ
  pub planifs : List DefPlanification → List DefPlanification → ℤ

-- `pstInit`; `none` is the null pointer.
unfoldable pub pst_init :
    (F : Double)
    → Memcmp F.Val
    → ParametreAppli F.Val
    → ParametreAppli F.Val × Option (ParametreAppli F.Val)
unfolding s_init_profil s_init_planification
pst_init F cmp old =
    let (p, e1) = s_init_profil F old in
    let c1 = record (p.change) {
      param_profil = bit_or p.change.param_profil (low_bit (cmp.profils old.profils p.profils));
    } in
    let (q, e2) = s_init_planification F (record p { change = c1 }) in
    let c2 = record (q.change) {
      param_planif_profil =
          bit_or q.change.param_planif_profil (low_bit (cmp.planifs old.planifs q.planifs));
    } in
    let r = record q { change = c2 } in
    (r, if eq_ℤ e1 (pos 0) && eq_ℤ e2 (pos 0) then some r else none)

-- The constructor: the tables zeroed, then `pstInit`.
unfoldable pub new_parametres : (F : Double) → Memcmp F.Val → ParametreAppli F.Val
unfolding pst_init zero_profil
new_parametres F cmp = (pst_init F cmp blank).0
  where
    blank : ParametreAppli F.Val
    blank = record {
      profils = replicate max_profil (zero_profil F);
      planifs =
          replicate max_planif_profil
            (record { numero_planif = 0; numero_profil = 0; planif = zero_planif });
      change = record { param_profil = 0; param_planif_profil = 0 };
    }
