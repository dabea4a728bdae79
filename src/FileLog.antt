-- ===== src/FileLog.antt =====
-- commun/FileLog.cpp: the log file, and the removal of the old ones. A string is the list of its
-- characters, without the 0 at its end. `iLogfile` and `m_time_write` are read as fields of the class,
-- which does not declare them.
pub mod Lines
pub mod Dated
pub mod Purged
pub mod Flushed
-- The fields of the class. `iLogfile` is 0 when no file is open.
use gest_aqua.Prelude.{Bool, List, Option, [], eq_ℤ, false, if◌then◌else◌, length, ltb, none}
use gest_aqua.Prelude.{pos, replicate, some, suc, take, true, wrap, zero, ℕ, ℤ, ◌%◌, ◌*ℤ◌, ◌++◌}
use gest_aqua.Prelude.{◌+◌, ◌-ℤ◌, ◌-◌, ◌/◌, ◌==◌, ◌>>=◌, ◌∷◌}

pub record FileLog : Type 0 where
  pub logfile : ℤ
  pub log_count : ℤ
  pub file_rep : List ℕ
  pub file_name : List ℕ
  pub niveau : ℤ
  pub file_flush : ℤ
  pub nbjour : ℤ
  pub time_write : ℤ
  pub last_write : ℤ

-- The day of a `struct tm`: `tm_year` counts from 1900 and `tm_mon` from 0.
pub record Day : Type 0 where
  pub tm_year : ℕ
  pub tm_mon : ℕ
  pub tm_mday : ℕ

-- The functions of the system. `find` gives the names that `_findfirst` and `_findnext` give, and
-- `localtime` is `none` for the null pointer.
pub record Files (S : Type 0) : Type 0 where
  pub open_append : List ℕ → S → S × ℤ
  pub close : ℤ → S → S
  pub write : ℤ → List ℕ → S → S × ℤ
  pub sync : ℤ → S → S
  pub find : List ℕ → S → List (List ℕ)
  pub delete_file : List ℕ → S → S
  pub localtime : ℤ → Option Day

-- `_MAX_PATH` of the compiler, and the width of a `time_t`.
pub record Target : Type 0 where
  pub max_path : ℕ
  pub time_bits : ℕ

-- The texts ".txt" and "-*.txt".
abbrev pub txt : List ℕ
txt = 46 ∷ 116 ∷ 120 ∷ 116 ∷ []

abbrev pub star_txt : List ℕ
star_txt = 45 ∷ 42 ∷ txt

-- The decimal digits of an `int`, which has at most ten.
unfoldable pub digits : ℕ → ℕ → List ℕ → List ℕ
digits zero n out = out
digits (suc fuel) n out =
    let rest = digits fuel (n / 10) ((48 + n % 10) ∷ out) in
    if ltb n 10 then (48 + n) ∷ out else rest

-- `%0wd` of a number that is not negative.
unfoldable pub padded : ℕ → ℕ → List ℕ
unfolding digits
padded w n = let d = digits 10 n [] in replicate (w - length d) 48 ++ d

-- The file of the log of a day: `"%s-%04d%02d%02d.txt"`.
unfoldable pub log_name : List ℕ → Day → List ℕ
unfolding padded
log_name name d =
    name
    ++ 45
      ∷ (padded 4 (d.tm_year + 1900) ++ (padded 2 (d.tm_mon + 1) ++ (padded 2 d.tm_mday ++ txt)))

-- `strcmp (a, b) <= 0`
unfoldable pub leb_str : List ℕ → List ℕ → Bool
leb_str [] b = true
leb_str (x ∷ a) [] = false
leb_str (x ∷ a) (y ∷ b) = let rest = leb_str a b in if x == y then rest else ltb x y

-- The constructor.
unfoldable pub new_log : FileLog
new_log = record {
  logfile = pos 0;
  log_count = pos 0;
  file_rep = [];
  file_name = [];
  niveau = pos 0;
  file_flush = pos 20;
  nbjour = pos 0;
  time_write = pos 0;
  last_write = pos 0;
}

-- `SetNbjour` and `SetNiveau`
unfoldable pub set_nbjour : ℤ → FileLog → FileLog
set_nbjour nb f = record f { nbjour = nb }

unfoldable pub set_niveau : ℤ → FileLog → FileLog
set_niveau val f = record f { niveau = val }

-- A text put in an array of `_MAX_PATH` characters; `none` is a text that runs over its end.
unfoldable pub in_path : Target → List ℕ → Option (List ℕ)
in_path t s = if ltb (length s) t.max_path then some s else none

-- The number of seconds of the days to keep, an `int`, and the moment before which nothing is kept.
unfoldable pub limit : Target → ℤ → ℤ → ℤ
limit t now nbjour = wrap t.time_bits (now -ℤ wrap 32 (nbjour *ℤ pos 86400))

module _ {S : Type 0} (fs : Files S) (t : Target) where
  -- The loop of `DelOldLog` on the files found.
  unfoldable pub del_files : List ℕ → List ℕ → List (List ℕ) → S → Option S
  unfolding in_path leb_str
  del_files rep bufbak [] s = some s
  del_files rep bufbak (name ∷ names) s = elim (leb_str name bufbak) [
    | true ↦ in_path t (rep ++ name) >>= λ path. del_files rep bufbak names (fs.delete_file path s)
    | false ↦ del_files rep bufbak names s
  ]

  -- `DelOldLog`, at a moment; `none` is a path that is too long.
  unfoldable pub del_old_log : ℤ → FileLog → S → Option S
  unfolding in_path limit log_name del_files
  del_old_log now f s =
      if eq_ℤ f.nbjour (pos 0)
      then some s
      else in_path t (f.file_rep ++ f.file_name ++ star_txt) >>= λ buf.
          elim (fs.localtime (limit t now f.nbjour)) [
            | none ↦ some s
            | some d ↦ in_path t (log_name f.file_name d) >>= λ bufbak.
                del_files f.file_rep bufbak (fs.find buf s) s
          ]

  -- The destructor.
  unfoldable pub delete_log : FileLog → S → FileLog × S
  delete_log f s =
      if eq_ℤ f.logfile (pos 0)
      then (f, s)
      else (record f { logfile = pos 0 }, fs.close f.logfile s)

  -- `SetRep`; `now` and `after` are what `time` gives before and after.
  unfoldable pub set_rep : ℤ → ℤ → List ℕ → FileLog → S → Option (FileLog × S)
  unfolding del_old_log delete_log in_path
  set_rep now after rep f s = do
    let (f1, s1) = delete_log (record f { file_rep = take (t.max_path - 1) rep }) s
    s2 ← del_old_log now f1 s1
    buf ← in_path t (f1.file_rep ++ f1.file_name ++ txt)
    let (s3, fd) = fs.open_append buf s2
    let f2 = record f1 { logfile = fd }
    some (if eq_ℤ fd (pos 0) then f2 else record f2 { last_write = after }, s3)

  -- `Init`
  unfoldable pub init : ℤ → ℤ → List ℕ → List ℕ → ℤ → ℤ → FileLog → S → Option (FileLog × S)
  unfolding set_rep
  init now after rep name niv flush f s =
      set_rep now after rep
        (record f {
          file_name = take (t.max_path - 1) name;
          niveau = wrap 16 niv;
          file_flush = flush;
          log_count = pos 0;
        })
        s
