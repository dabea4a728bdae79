-- ===== src/DlgSorhea/CommandLine.antt =====
-- dlg_i2c_sorhea.c: the options that the program reads from its command line.
use gest_aqua.Prelude.{Bool, Bool-cases, List, [], ap, arith, false, inl, inr, none, refl, some}
use gest_aqua.Prelude.{sym, true, u8, ℕ, ◌++◌, ◌∙◌, ◌∷◌, ◌≡◌}
use gest_aqua.DlgSorhea.{Options, Switch, defaults, opt_a, opt_c, opt_r, opt_t, opt_v, opt_w}
use gest_aqua.DlgSorhea.{parse, switch_of}

-- The variables after an argument that takes no value, and after one with its value.
abbrev pub alone : Switch → Options → Options
alone opt_r o = record o { ecriture = false }
alone opt_w o = record o { ecriture = true }
alone opt_t o = record o { trame_vie = false }
alone _ o = o

-- Whether an argument reads the one that follows it.
abbrev pub takes_value : Switch → Bool
takes_value opt_c = true
takes_value opt_a = true
takes_value opt_v = true
takes_value _ = false

-- "-r" and its like.
abbrev pub dash : ℕ → List ℕ
dash l = 45 ∷ l ∷ []

-- The command line that asks to write a byte: `-w -c CMD -a ADD -v VAL`.
abbrev pub write_line : List ℕ → List ℕ → List ℕ → List (List ℕ)
write_line cmd add val = dash 119 ∷ dash 99 ∷ cmd ∷ dash 97 ∷ add ∷ dash 118 ∷ val ∷ []

module _ (strtoul : List ℕ → ℕ) where
  -- The variables after an argument and its value.
  abbrev pub valued : Switch → List ℕ → Options → Options
  valued opt_c v o = record o { uc_cmd = u8 (strtoul v) }
  valued opt_a v o = record o { uc_add = u8 (strtoul v) }
  valued opt_v v o = record o { uc_val = u8 (strtoul v) }
  valued _ v o = o

  parse-alone :
      (s : Switch) (w : List ℕ) (ws : List (List ℕ)) (o : Options)
      → switch_of w ≡ s
      → takes_value s ≡ false
      → parse strtoul o (w ∷ ws) ≡ parse strtoul (alone s o) ws
  unfolding parse
  parse-alone s w [] o e h = ground arith
  parse-alone s w (v ∷ ws) o e h = ground arith

  parse-valued :
      (s : Switch) (w v : List ℕ) (ws : List (List ℕ)) (o : Options)
      → switch_of w ≡ s
      → takes_value s ≡ true
      → parse strtoul o (w ∷ v ∷ ws) ≡ parse strtoul (valued s v o) ws
  unfolding parse
  parse-valued s w v ws o e h = ground arith

  parse-valued_nil :
      (w : List ℕ) (o : Options)
      → takes_value (switch_of w) ≡ true
      → parse strtoul o (w ∷ []) ≡ none
  unfolding parse
  parse-valued_nil w o h = ground arith

  parse_nil : (o : Options) → parse strtoul o [] ≡ some o
  unfolding parse
  parse_nil o = refl

  -- A command line that is read to its end is read the same before others.
  pub parse-append :
      (args more : List (List ℕ)) (o o' : Options)
      → parse strtoul o args ≡ some o'
      → parse strtoul o (args ++ more) ≡ parse strtoul o' more
  parse-append [] more o o' h =
      let n = parse_nil o in let same : o ≡ o' = cc in ap (λ x. parse strtoul x more) same
  parse-append (w ∷ []) more o o' h = elim (Bool-cases (takes_value (switch_of w))) [
    | inl e ↦ let n = parse-valued_nil w o e in absurd (cc)
    | inr e ↦
        parse-alone (switch_of w) w more o refl e
        ∙ parse-append [] more (alone (switch_of w) o) o'
            (sym (parse-alone (switch_of w) w [] o refl e) ∙ h)
  ]
  parse-append (w ∷ v ∷ ws) more o o' h = elim (Bool-cases (takes_value (switch_of w))) [
    | inl e ↦
        parse-valued (switch_of w) w v (ws ++ more) o refl e
        ∙ parse-append ws more (valued (switch_of w) v o) o'
            (sym (parse-valued (switch_of w) w v ws o refl e) ∙ h)
    | inr e ↦
        parse-alone (switch_of w) w (v ∷ ws ++ more) o refl e
        ∙ parse-append (v ∷ ws) more (alone (switch_of w) o) o'
            (sym (parse-alone (switch_of w) w (v ∷ ws) o refl e) ∙ h)
  ]

  -- A command line that is read to its end, followed by an option whose value is missing, makes the
  -- program read the string at the null pointer.
  pub parse-append_missing :
      (args : List (List ℕ)) (w : List ℕ) (o o' : Options)
      → parse strtoul o args ≡ some o'
      → takes_value (switch_of w) ≡ true
      → parse strtoul o (args ++ w ∷ []) ≡ none
  parse-append_missing args w o o' h e = parse-append args (w ∷ []) o o' h ∙ parse-valued_nil w o' e

  abbrev pub written : List ℕ → List ℕ → List ℕ → Options
  written cmd add val = record {
    ecriture = true;
    uc_cmd = u8 (strtoul cmd);
    uc_add = u8 (strtoul add);
    uc_val = u8 (strtoul val);
    trame_vie = true;
  }

  pub parse-write_line :
      (cmd add val : List ℕ)
      → parse strtoul defaults (write_line cmd add val) ≡ some (written cmd add val)
  unfolding parse switch_of
  parse-write_line cmd add val = refl
