-- ===== src/Config.antt =====
-- BaseSqlite.h: the application's parameters. A number keeps the value of its field; `D` is the type
-- of the C `double`.
pub mod Init
pub mod Change
pub mod Curve
use gest_aqua.Prelude.{ℕ, ℤ, pos, List, ◌*◌}

-- `enum TYPE_TACHE` of commun/General.h
pub data TypeTache : Type 0 where
  inconnu profil lecture_ph lecture_temp soleil lune vent pluie co2 : TypeTache

-- PLANIFICATION_TACHE; the times are seconds from midnight.
pub record PlanificationTache : Type 0 where
  pub etype : TypeTache
  pub debut : ℤ
  pub period : ℤ
  pub relance : ℤ

-- COURBE: the tag with the member of the union that it selects; `nulle` is the zeroed tag.
pub data Courbe (D : Type 0) : Type 0 where
  nulle : Courbe D
  affine : D → D → Courbe D
  log : D → Courbe D

-- SEGMENT_SOLAIRE
pub record SegmentSolaire (D : Type 0) : Type 0 where
  pub temps : PlanificationTache
  pub intervalle_x : ℕ  -- seconds
  pub courbe : Courbe D

-- COURBE_SOLAIRE; `segments` is the array `lSegment [32]`.
pub record CourbeSolaire (D : Type 0) : Type 0 where
  pub nb_segment : ℕ
  pub segments : List (SegmentSolaire D)

-- PARAM_SOLEIL
pub record ParamSoleil (D : Type 0) : Type 0 where
  pub valide : ℕ
  pub azimut : ℕ
  pub ephemeride : PlanificationTache
  pub courbe_solaire : CourbeSolaire D

-- PARAM_PROFIL; `nom` holds the bytes before the terminator.
pub record ParamProfil (D : Type 0) : Type 0 where
  pub nom : List ℕ
  pub numero_profil : ℕ
  pub param_soleil : ParamSoleil D

-- DEF_PLANIFICATION_PROFIL
pub record DefPlanification : Type 0 where
  pub numero_planif : ℕ
  pub numero_profil : ℕ
  pub planif : PlanificationTache

-- PARAM_CHANGE: the two named bits.
pub record ParamChange : Type 0 where
  pub param_profil : ℕ
  pub param_planif_profil : ℕ

-- PARAMETRE_APPLI
pub record ParametreAppli (D : Type 0) : Type 0 where
  pub profils : List (ParamProfil D)
  pub planifs : List DefPlanification
  pub change : ParamChange

abbrev pub max_profil : ℕ
max_profil = 2

abbrev pub max_planif_profil : ℕ
max_planif_profil = 2

-- SECONDE, MINUTE, HEURE of commun/General.h
abbrev pub heure : ℕ → ℤ
heure n = pos (n * 3600)
