-- ===== src/FileLog/Purged.antt =====
-- The removal of the files of old days.
-- The days up to a day, among some.
use gest_aqua.Prelude.{All, Bool-cases, List, [], arith, eq_ℤ, false, if◌then◌else◌, inl, inr}
use gest_aqua.Prelude.{length, length-append, lt→ltb, map, pos, refl, some, true, ℕ, ◌*ℤ◌, ◌*◌}
use gest_aqua.Prelude.{◌++◌, ◌+◌, ◌-ℤ◌, ◌-◌, ◌<ℤ◌, ◌<◌, ◌^◌, ◌↔◌, ◌∙◌, ◌∷◌, ◌≡◌, ◌≤◌, ◌⊎◌}
use gest_aqua.FileLog.{Day, FileLog, Files, Target, del_files, del_old_log, in_path, leb_str}
use gest_aqua.FileLog.{limit, log_name, star_txt}
use gest_aqua.FileLog.Dated.{IsDay, leb_day, leb_str-log_name, length-log_name}

abbrev pub up_to : Day → List Day → List Day
up_to d [] = []
up_to d (a ∷ days) = let rest = up_to d days in if leb_day a d then a ∷ rest else rest

-- The moment from which on the files are kept: while the days to keep are at most 24855, it is that
-- many days before now.
limit_lem :
    (t : Target) (now nb : ℕ)
    → (t.time_bits ≡ 32) ⊎ (t.time_bits ≡ 64)
    → now < 2 ^ 31
    → nb ≤ 24855
    → nb * 86400 ≤ now
    → limit t (pos now) (pos nb) ≡ pos (now - nb * 86400)
unfolding limit ◌-ℤ◌ ◌*ℤ◌
limit_lem t now nb (inl w) hn hb early = rw w (ground arith)
limit_lem t now nb (inr w) hn hb early = rw w (ground arith)

-- With 24856 days or more to keep the number of seconds is no `int`, and wraps: the moment is then in
-- the future, and not else. `time_t` has 64 bits, the present is before 2038, and the days fit in a
-- `short`.
pub limit_future :
    (t : Target) (now nb : ℕ)
    → t.time_bits ≡ 64
    → now < 2 ^ 31
    → nb < 2 ^ 15
    → (pos now <ℤ limit t (pos now) (pos nb)) ↔ (24855 < nb)
unfolding limit ◌-ℤ◌ ◌*ℤ◌
limit_future t now nb w hn hb = rw w (ground arith)

in_path_fits : (t : Target) (p : List ℕ) → length p < t.max_path → in_path t p ≡ some p
unfolding in_path
in_path_fits t p h = rw (lt→ltb (length p) t.max_path h) refl

module _ {S : Type 0} (fs : Files S) (t : Target) where
  -- The removal of the files of some days, one after the other.
  abbrev pub delete_days : List ℕ → List ℕ → List Day → S → S
  delete_days rep name [] s = s
  delete_days rep name (a ∷ days) s =
      delete_days rep name days (fs.delete_file (rep ++ log_name name a) s)

  del_files_kept :
      (rep b name : List ℕ) (names : List (List ℕ)) (s : S)
      → leb_str name b ≡ false
      → del_files fs t rep b (name ∷ names) s ≡ del_files fs t rep b names s
  unfolding del_files
  del_files_kept rep b name names s e = rw (e, del_files) refl

  del_files_old :
      (rep b name : List ℕ) (names : List (List ℕ)) (s : S)
      → leb_str name b ≡ true
      → length (rep ++ name) < t.max_path
      → del_files fs t rep b (name ∷ names) s
        ≡ del_files fs t rep b names (fs.delete_file (rep ++ name) s)
  unfolding del_files
  del_files_old rep b name names s e short =
      rw (e, del_files, in_path_fits t (rep ++ name) short) refl

  del_files-log_name :
      (rep name : List ℕ) (d : Day) (days : List Day) (s : S)
      → length rep + length name + 13 < t.max_path
      → IsDay d
      → All IsDay days
      → del_files fs t rep (log_name name d) (map (log_name name) days) s
        ≡ some (delete_days rep name (up_to d days) s)
  unfolding del_files
  del_files-log_name rep name d [] s short hd hs = refl
  del_files-log_name rep name d (a ∷ days) s short hd (ha, hs) =
      let order = leb_str-log_name name a d ha hd in
      let file = log_name name a in
      let names = map (log_name name) days in
      let fits : length (rep ++ file) < t.max_path =
        omega (arith, length-append rep file, length-log_name name a ha) in
      elim (Bool-cases (leb_day a d)) [
        | inl e ↦
            del_files_old rep (log_name name d) file names s (order ∙ e) fits
            ∙ rw e (del_files-log_name rep name d days (fs.delete_file (rep ++ file) s) short hd hs)
        | inr e ↦
            del_files_kept rep (log_name name d) file names s (order ∙ e)
            ∙ rw e (del_files-log_name rep name d days s short hd hs)
      ]

  -- The files that the pattern finds are those of some days of the log. `DelOldLog` removes those of
  -- the days up to the one that is `m_nbjour` days ago, in the order in which they are found, and no
  -- other. The days to keep are from 1 to 24855 and not more than the days since 1970, the present is
  -- before 2038, the clock gives the day, and the paths fit in their arrays.
  pub del_old_log_lem :
      (now nb : ℕ) (d : Day) (days : List Day) (f : FileLog) (s : S)
      → (t.time_bits ≡ 32) ⊎ (t.time_bits ≡ 64)
      → now < 2 ^ 31
      → (1 ≤ nb) × (nb ≤ 24855) × (nb * 86400 ≤ now)
      → f.nbjour ≡ pos nb
      → length f.file_rep + length f.file_name + 13 < t.max_path
      → fs.localtime (pos (now - nb * 86400)) ≡ some d
      → IsDay d
      → All IsDay days
      → fs.find (f.file_rep ++ f.file_name ++ star_txt) s ≡ map (log_name f.file_name) days
      → del_old_log fs t (pos now) f s ≡ some (delete_days f.file_rep f.file_name (up_to d days) s)
  unfolding del_old_log
  del_old_log_lem now nb d days f s w hn (one, few, early) keep short today hd hs found =
      let some_days : eq_ℤ (pos nb) (pos 0) ≡ false = ground arith in
      let buf = f.file_rep ++ f.file_name ++ star_txt in
      let fits : length buf < t.max_path = omega (
        arith,
        length-append (f.file_rep ++ f.file_name) star_txt,
        length-append f.file_rep f.file_name,
      ) in
      let file = log_name f.file_name d in
      let file_fits : length file < t.max_path = omega (arith, length-log_name f.file_name d hd) in
      rw
        (
          keep,
          some_days,
          in_path_fits t buf fits,
          limit_lem t now nb w hn few early,
          today,
          in_path_fits t file file_fits,
          found,
        )
        (del_files-log_name f.file_rep f.file_name d days s short hd hs)
