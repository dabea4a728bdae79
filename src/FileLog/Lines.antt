-- ===== src/FileLog/Lines.antt =====
-- `FileLog::Log`: one line of the log.
-- The size of `szBuffer`.
use gest_aqua.Prelude.{List, Option, [], eq_ℤ, if◌then◌else◌, leb, length, ltb_ℤ, none, not, pos}
use gest_aqua.Prelude.{some, wrap, ℕ, ℤ, ◌++◌, ◌+◌, ◌-ℤ◌, ◌||◌, ◌∷◌}
use gest_aqua.FileLog.{FileLog, Files, padded}

abbrev pub buffer_size : ℕ
buffer_size = 300

-- What the clock gives: the texts of `strdate` and of `strtime`, and the milliseconds.
pub record Stamp : Type 0 where
  pub date : List ℕ
  pub time : List ℕ
  pub millitm : ℕ

-- What stands before the text: date, time and `".%03hu "`.
unfoldable pub stamp_of : Stamp → List ℕ
unfolding padded
stamp_of st = st.date ++ 32 ∷ (st.time ++ 46 ∷ (padded 3 st.millitm ++ 32 ∷ []))

-- What the function does: nothing, or it builds the line in `szBuffer`. A text that `vsnprintf`
-- cannot make is `none`, and then there is no line; the result is `none` where the end of the line is
-- put past the buffer. A text that is too long is cut by `vsnprintf`, which returns its whole length.
pub data Built : Type 0 where
  overrun : Built
  no_line : Built
  line : List ℕ → Built

unfoldable pub build : Stamp → Option (List ℕ) → Built
unfolding stamp_of
build st none = no_line
build st (some text) =
    let head = stamp_of st in
    if leb buffer_size (length head + length text + 2)
    then overrun
    else line (head ++ text ++ 13 ∷ 10 ∷ [])

module _ {S : Type 0} (fs : Files S) where
  -- The end of `Log`: the line is written, and the file put on the disk from time to time.
  unfoldable pub put_line : List ℕ → FileLog → S → FileLog × S
  put_line l f s =
      if not (eq_ℤ f.logfile (pos 0))
      then (let (s', written) = fs.write f.logfile l s in
          let left = wrap 16 (f.log_count -ℤ pos 1) in
          if ltb_ℤ (pos 0) written
          then if ltb_ℤ left (pos 0)
            then (record f { log_count = f.file_flush }, fs.sync f.logfile s')
            else (record f { log_count = left }, s')
          else (f, s'))
      else (f, s)

  -- `Log`, with its text made from the format and the arguments; `none` is a write past the buffer.
  unfoldable pub log : ℤ → Stamp → Option (List ℕ) → FileLog → S → Option (FileLog × S)
  unfolding build
  log niv st text f s =
      if ltb_ℤ f.niveau niv || eq_ℤ f.logfile (pos 0) then some (f, s) else elim (build st text) [
        | overrun ↦ none
        | no_line ↦ some (f, s)
        | line l ↦ some (put_line l f s)
      ]
