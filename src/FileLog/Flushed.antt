-- ===== src/FileLog/Flushed.antt =====
-- The lines of the log: how long one may be, and how often the file is put on the disk.
-- What `strdate`, `strtime` and the milliseconds are.
use gest_aqua.Prelude.{All, Bool-cases, List, [], arith, eq_ℤ, false, if◌then◌else◌, inl, inr}
use gest_aqua.Prelude.{leb, length, length-append, ltb, ltb_ℤ, none, pos, refl, some, suc, sym}
use gest_aqua.Prelude.{true, wrap, zero, ℕ, ℤ, ◌++◌, ◌+◌, ◌-ℤ◌, ◌/◌, ◌<◌, ◌^◌, ◌∙◌, ◌∷◌, ◌≡◌}
use gest_aqua.Prelude.{◌≤◌, ◌⊎◌}
use gest_aqua.FileLog.{FileLog, Files, digits, padded}
use gest_aqua.FileLog.Lines.{Stamp, build, log, put_line, stamp_of}
use gest_aqua.Pwm.Laws.{level}

abbrev pub IsStamp : Stamp → Type 0
IsStamp st = (length st.date ≡ 8) × (length st.time ≡ 8) × (st.millitm < 1000)

length-padded_three : (n : ℕ) → n < 1000 → length (padded 3 n) ≡ 3
unfolding padded digits
length-padded_three n h = elim (Bool-cases (ltb n 10)) [
  | inl e ↦ rw e refl
  | inr e ↦ elim (Bool-cases (ltb (n / 10) 10)) [
    | inl e1 ↦ rw (e, e1) refl
    | inr e1 ↦ let e2 : ltb (n / 10 / 10) 10 ≡ true = ground arith in rw (e, e1, e2) refl
  ]
]

length-stamp_of : (st : Stamp) → IsStamp st → length (stamp_of st) ≡ 22
unfolding stamp_of
length-stamp_of st (d, t, m) =
    let ms = padded 3 st.millitm ++ 32 ∷ [] in
    omega (
      arith,
      length-append st.date (32 ∷ (st.time ++ 46 ∷ ms)),
      length-append st.time (46 ∷ ms),
      length-append (padded 3 st.millitm) (32 ∷ []),
      length-padded_three st.millitm m,
    )

-- A line with its end.
abbrev pub ended : List ℕ → List ℕ
ended l = l ++ 13 ∷ 10 ∷ []

module _ {S : Type 0} (fs : Files S) where
  -- The characters are written once, and the file put on the disk after that or not.
  abbrev pub IsWritten : ℤ → List ℕ → S → S → Type 0
  IsWritten fd l s s' = (s' ≡ (fs.write fd l s).0) ⊎ (s' ≡ fs.sync fd (fs.write fd l s).0)

  put_line_once :
      (l : List ℕ) (f : FileLog) (s : S)
      → eq_ℤ f.logfile (pos 0) ≡ false
      → let (f', s') = put_line fs l f s in (f'.logfile ≡ f.logfile) × IsWritten f.logfile l s s'
  unfolding put_line
  put_line_once l f s opened = ground arith

  -- A text given to an open log of its level: for one of at most 275 characters the date, the time,
  -- the text and the end of a line, of at most 299 characters together, are written once, and nothing
  -- else is written; the file may then be put on the disk, and it stays open. A longer text makes the
  -- function write past its buffer.
  pub log_lem :
      (niv : ℤ) (st : Stamp) (text : List ℕ) (f : FileLog) (s : S)
      → IsStamp st
      → ltb_ℤ f.niveau niv ≡ false
      → eq_ℤ f.logfile (pos 0) ≡ false
      → let l = ended (stamp_of st ++ text) in
        if leb (length text) 275
        then ((f' : FileLog) × (s' : S) × (log fs niv st (some text) f s ≡ some (f', s'))
            × (f'.logfile ≡ f.logfile)
            × IsWritten f.logfile l s s'
            × (length l ≤ 299))
        else (log fs niv st (some text) f s ≡ none)
  unfolding log build
  log_lem niv st text f s ok level opened =
      let head = length-stamp_of st ok in
      let l = ended (stamp_of st ++ text) in
      let len = length-append (stamp_of st ++ text) (13 ∷ 10 ∷ []) in
      let len' = length-append (stamp_of st) text in
      elim (Bool-cases (leb (length text) 275)) [
        | inl e ↦
            let fits : leb 300 (22 + length text + 2) ≡ false = ground arith in
            let short : length l ≤ 299 = ground (arith, len, len', head) in
            let (same, once) = put_line_once l f s opened in
            rw (e, level, opened, head, fits)
              ((put_line fs l f s).0, (put_line fs l f s).1, refl, same, once, short)
        | inr e ↦
            let over : leb 300 (22 + length text + 2) ≡ true = ground arith in
            rw (e, level, opened, head, over) refl
      ]

  -- Lines put one after the other, and what is then written.
  abbrev pub put_lines : List (List ℕ) → FileLog → S → FileLog × S
  put_lines [] f s = (f, s)
  put_lines (l ∷ ls) f s = let (f', s') = put_line fs (ended l) f s in put_lines ls f' s'

  abbrev pub writes : ℤ → List (List ℕ) → S → S
  writes fd [] s = s
  writes fd (l ∷ ls) s = writes fd ls (fs.write fd (ended l) s).0

  -- Batches of lines, the file put on the disk after each.
  abbrev pub synced : ℤ → List (List (List ℕ)) → S → S
  synced fd [] s = s
  synced fd (b ∷ bs) s = synced fd bs (fs.sync fd (writes fd b s))

  abbrev pub joined : List (List (List ℕ)) → List (List ℕ)
  joined [] = []
  joined (b ∷ bs) = b ++ joined bs

  -- The disk takes every line, which is never empty.
  abbrev pub Takes : ℤ → Type 0
  Takes fd = (l : List ℕ) (s : S) → ltb_ℤ (pos 0) (fs.write fd (ended l) s).1 ≡ true

  put_line-zero :
      (l : List ℕ) (f : FileLog) (s : S)
      → eq_ℤ f.logfile (pos 0) ≡ false
      → Takes f.logfile
      → f.log_count ≡ pos 0
      → put_line fs (ended l) f s ≡ (
        record f { log_count = f.file_flush },
        fs.sync f.logfile (fs.write f.logfile (ended l) s).0,
      )
  unfolding put_line ◌-ℤ◌
  put_line-zero l f s opened takes count = rw (opened, count, takes l s) refl

  put_line-suc :
      (k : ℕ) (l : List ℕ) (f : FileLog) (s : S)
      → eq_ℤ f.logfile (pos 0) ≡ false
      → Takes f.logfile
      → f.log_count ≡ pos (suc k)
      → k < 2 ^ 15
      → put_line fs (ended l) f s
        ≡ (record f { log_count = pos k }, (fs.write f.logfile (ended l) s).0)
  unfolding put_line ◌-ℤ◌
  put_line-suc k l f s opened takes count h =
      let left : wrap 16 (pos (suc k) -ℤ pos 1) ≡ pos k = ground arith in
      let some_left : ltb_ℤ (pos k) (pos 0) ≡ false = ground arith in
      rw (opened, count, left, some_left, takes l s) refl

  put_lines-append :
      (ls ms : List (List ℕ)) (f : FileLog) (s : S)
      → put_lines (ls ++ ms) f s ≡ (let (f', s') = put_lines ls f s in put_lines ms f' s')
  put_lines-append [] ms f s = refl
  put_lines-append (l ∷ ls) ms f s =
      let (f', s') = put_line fs (ended l) f s in put_lines-append ls ms f' s'

  -- As many lines as are left before the file is put on the disk.
  put_lines-batch :
      (k n : ℕ) (ls : List (List ℕ)) (f : FileLog) (s : S)
      → eq_ℤ f.logfile (pos 0) ≡ false
      → Takes f.logfile
      → f.log_count ≡ pos k
      → f.file_flush ≡ pos n
      → k < 2 ^ 15
      → length ls ≡ suc k
      → put_lines ls f s
        ≡ (record f { log_count = pos n }, fs.sync f.logfile (writes f.logfile ls s))
  put_lines-batch k n [] f s opened takes count flush h len = absurd (omega arith)
  put_lines-batch zero n (l ∷ []) f s opened takes count flush h len =
      rw (put_line-zero l f s opened takes count, flush) refl
  put_lines-batch zero n (l ∷ l' ∷ ls) f s opened takes count flush h len = absurd (omega arith)
  put_lines-batch (suc k) n (l ∷ ls) f s opened takes count flush h len =
      rw (put_line-suc k l f s opened takes count (omega arith)) (
        put_lines-batch k n ls (record f { log_count = pos k }) (fs.write f.logfile (ended l) s).0
          opened takes refl flush (omega arith) (omega arith))

  put_lines-synced :
      (n : ℕ) (bs : List (List (List ℕ))) (f : FileLog) (s : S)
      → eq_ℤ f.logfile (pos 0) ≡ false
      → Takes f.logfile
      → f.log_count ≡ pos n
      → f.file_flush ≡ pos n
      → n < 2 ^ 15
      → All (λ b. length b ≡ suc n) bs
      → put_lines (joined bs) f s ≡ (record f { log_count = pos n }, synced f.logfile bs s)
  put_lines-synced n [] f s opened takes count flush h sizes = rw (sym count) refl
  put_lines-synced n (b ∷ bs) f s opened takes count flush h (size, sizes) =
      put_lines-append b (joined bs) f s
      ∙ rw (put_lines-batch n n b f s opened takes count flush h size) (
          put_lines-synced n bs (record f { log_count = pos n })
            (fs.sync f.logfile (writes f.logfile b s)) opened takes refl flush h sizes)

  -- On a log just initialized the first line is put on the disk at once, and then the lines by
  -- batches of one more than the number asked: each batch is put on the disk once, after its last
  -- line. The disk takes every line, and the number is a `short` from 0 on.
  pub put_lines_lem :
      (n : ℕ) (l : List ℕ) (bs : List (List (List ℕ))) (f : FileLog) (s : S)
      → eq_ℤ f.logfile (pos 0) ≡ false
      → Takes f.logfile
      → f.log_count ≡ pos 0
      → f.file_flush ≡ pos n
      → n < 2 ^ 15
      → All (λ b. length b ≡ suc n) bs
      → put_lines (l ∷ joined bs) f s
        ≡ (record f { log_count = pos n }, synced f.logfile ((l ∷ []) ∷ bs) s)
  put_lines_lem n l bs f s opened takes count flush h sizes =
      put_lines-append (l ∷ []) (joined bs) f s
      ∙ rw (put_lines-batch 0 n (l ∷ []) f s opened takes count flush (omega arith) refl) (
          put_lines-synced n bs (record f { log_count = pos n })
            (fs.sync f.logfile (fs.write f.logfile (ended l) s).0) opened takes refl flush h sizes)
