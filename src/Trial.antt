-- ===== src/Trial.antt =====
-- main.cpp: the trial of sqlite, which shows the table of the system and then sleeps for ever. A text
-- is the list of its characters.
-- What it prints: a column with its value or `NULL`, the end of a row, or the message of sqlite.
use gest_aqua.Prelude.{List, Option, [], none, pos, refl, some, ℕ, ℤ, ◌++◌, ◌∷◌, ◌≡◌}

pub data Shown : Type 0 where
  column : List ℕ → Option (List ℕ) → Shown
  callback_line : Shown
  message : List ℕ → Shown

-- A row as sqlite gives it to the callback: the names of the columns with their values.
abbrev pub Row : Type 0
Row = List (List ℕ × Option (List ℕ))

-- `callback`: what it prints, and the 0 that lets sqlite go on.
unfoldable pub callback : Row → List Shown × ℤ
callback [] = (callback_line ∷ [], pos 0)
callback ((name, value) ∷ row) = let (rest, ret) = callback row in (column name value ∷ rest, ret)

-- The functions of sqlite: the error of `sqlite3_open`, if there is one, and `sqlite3_exec` on the
-- select, which makes its calls of the callback and says its error, if there is one.
pub record Sqlite : Type 0 where
  pub open_error : Option (List ℕ)
  pub exec : (Row → List Shown × ℤ) → List Shown × Option (List ℕ)

-- `main`: what it prints before it sleeps.
unfoldable pub main : Sqlite → List Shown
main db = elim db.open_error [
  | some error ↦ message error ∷ []
  | none ↦
      let (lines, exec_error) = db.exec callback in
      elim exec_error [ none ↦ lines | some error ↦ lines ++ message error ∷ [] ]
]

-- What a row prints.
abbrev row_lines : Row → List Shown
row_lines [] = callback_line ∷ []
row_lines ((name, value) ∷ row) = column name value ∷ row_lines row

-- The callback shows each column of its row with its value, in order, and lets sqlite go on.
callback_lem : (row : Row) → callback row ≡ (row_lines row, pos 0)
unfolding callback
callback_lem [] = refl
callback_lem ((name, value) ∷ row) = rw (callback_lem row) refl
