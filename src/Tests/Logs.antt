-- ===== src/Tests/Logs.antt =====
-- The theorems on the log, on a disk whose files were removed and written in order.
-- What was done to the disk: a file removed, or what was written to a file, the last first.
use gest_aqua.Prelude.{List, [], arith, inl, length, length-append, ltb_ℤ, map, none, pos, refl}
use gest_aqua.Prelude.{replicate, some, true, ℕ, ℤ, ◌++◌, ◌∷◌, ◌≡◌, ◌≤◌}
use gest_aqua.FileLog.{Day, FileLog, Files, Target, del_old_log, log_name}
use gest_aqua.FileLog.Flushed.{IsWritten, ended, log_lem}
use gest_aqua.FileLog.Lines.{Stamp, log, stamp_of}
use gest_aqua.FileLog.Purged.{del_old_log_lem}

data Done : Type 0 where
  opened : List ℕ → Done
  closed : ℤ → Done
  wrote : List ℕ → Done
  saved : Done
  removed : List ℕ → Done

abbrev day : ℕ → Day
day d = record { tm_year = 126; tm_mon = 0; tm_mday = d }

-- The log is named "g", in the folder "r/".
abbrev folder : List ℕ
folder = 114 ∷ 47 ∷ []

abbrev name : List ℕ
name = 103 ∷ []

abbrev days : List Day
days = day 5 ∷ day 30 ∷ day 10 ∷ []

abbrev disk : Files (List Done)
disk = record {
  open_append = λ p s. (opened p ∷ s, pos 3);
  close = λ fd s. closed fd ∷ s;
  write = λ fd l s. (wrote l ∷ s, pos (length l));
  sync = λ fd s. saved ∷ s;
  find = λ p s. map (log_name name) days;
  delete_file = λ p s. removed p ∷ s;
  localtime = λ t. some (day 10);
}

abbrev target : Target
target = record { max_path = 260; time_bits = 32 }

abbrev the_log : FileLog
the_log = record {
  logfile = pos 3;
  log_count = pos 0;
  file_rep = folder;
  file_name = name;
  niveau = pos 2;
  file_flush = pos 1;
  nbjour = pos 20;
  time_write = pos 0;
  last_write = pos 0;
}

del_old_log_lem_example :
    del_old_log disk target (pos 1769760000) the_log []
    ≡ some (
        removed (folder ++ log_name name (day 10)) ∷ removed (folder ++ log_name name (day 5)) ∷ [])
del_old_log_lem_example =
    del_old_log_lem disk target 1769760000 20 (day 10) days the_log [] (inl refl) (omega arith)
      (omega arith, omega arith, omega arith) refl (omega arith) refl
      (omega arith, omega arith, omega arith)
      (
        (omega arith, omega arith, omega arith),
        ((omega arith, omega arith, omega arith), ((omega arith, omega arith, omega arith), tt)),
      )
      refl

-- "01/31/26" and "08:00:00"
abbrev stamp : Stamp
stamp = record {
  date = 48 ∷ 49 ∷ 47 ∷ 51 ∷ 49 ∷ 47 ∷ 50 ∷ 54 ∷ [];
  time = 48 ∷ 56 ∷ 58 ∷ 48 ∷ 48 ∷ 58 ∷ 48 ∷ 48 ∷ [];
  millitm = 7;
}

-- The line "A" with its date and time.
log_lem_example :
    let l = ended (stamp_of stamp ++ 65 ∷ []) in
    (f' : FileLog) × (s' : List Done) × (log disk (pos 1) stamp (some (65 ∷ [])) the_log []
      ≡ some (f', s'))
    × (f'.logfile ≡ pos 3)
    × IsWritten disk (pos 3) l [] s'
    × (length l ≤ 299)
log_lem_example =
    log_lem disk (pos 1) stamp (65 ∷ []) the_log [] (refl, refl, omega arith) refl refl

too_long : log disk (pos 1) stamp (some (replicate 276 65)) the_log [] ≡ none
too_long =
    log_lem disk (pos 1) stamp (replicate 276 65) the_log [] (refl, refl, omega arith) refl refl

write_positive :
    (l : List ℕ) (s : List Done) → ltb_ℤ (pos 0) (disk.write (pos 3) (ended l) s).1 ≡ true
write_positive l s = ground (arith, length-append l (13 ∷ 10 ∷ []))
