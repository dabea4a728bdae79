-- ===== src/PowerCam/Queue.antt =====
-- The ring of events as a bounded queue: `DataIn` appends and `i2c_PowerCam_read` takes the first.
-- The entry of a row, and the entries of the rows that follow a row.
use gest_aqua.Prelude.{Bool-cases, List, [], ap₂, arith, false, if◌then◌else◌, inl, inr, length}
use gest_aqua.Prelude.{ltb, negsuc, not, pos, refl, some, suc, sym, true, ℕ, ◌%◌, ◌*◌, ◌++◌, ◌+◌}
use gest_aqua.Prelude.{◌-◌, ◌<◌, ◌==◌, ◌∙◌, ◌∷◌, ◌≡◌, ◌≢◌}
use gest_aqua.PowerCam.{Kernel, PowerCam, put}
use gest_aqua.PowerCam.Following.{advance_lem, following, following-agree, following-snoc}
use gest_aqua.PowerCam.Following.{length-following}
use gest_aqua.PowerCam.Ring.{data_in, take_data}

abbrev pub entry : (ℕ → ℕ) → ℕ → ℕ × ℕ
entry m i = (m (i * 2), m (i * 2 + 1))

abbrev pub entries : (ℕ → ℕ) → ℕ → ℕ → List (ℕ × ℕ)
entries m i n = following (entry m) i n

module _ {S : Type 0} where
  -- The events that the application has yet to read, the oldest first.
  abbrev pub waiting : PowerCam S → ℕ
  waiting c = (c.bufr0 + 10 - c.bufr1) % 10

  abbrev pub events_of : PowerCam S → List (ℕ × ℕ)
  events_of c = entries c.buf_read c.bufr1 (waiting c)

  -- The indices are those of rows, which holds once something has been read, and `data_on` says that
  -- something waits.
  abbrev pub IsValid : PowerCam S → Type 0
  IsValid c = (c.bufr0 < 10) × (c.bufr1 < 10) × (c.data_on ≡ not (c.bufr0 == c.bufr1))

-- A write to a row that is not among those that follow changes none of them.
entry-put :
    (m : ℕ → ℕ) (j r a b : ℕ) → j ≢ r → entry (put (r * 2 + 1) b (put (r * 2) a m)) j ≡ entry m j
entry-put m j r a b ne = ground arith

entry-put_self : (m : ℕ → ℕ) (r a b : ℕ) → entry (put (r * 2 + 1) b (put (r * 2) a m)) r ≡ (a, b)
entry-put_self m r a b = ground arith

-- What is taken from a queue, and what is left of it.
abbrev pub IsTaken : List (ℕ × ℕ) → List ℕ → List (ℕ × ℕ) → Type 0
IsTaken [] out rest = (out ≡ []) × (rest ≡ [])
IsTaken ((a, b) ∷ es) out rest = (out ≡ a ∷ b ∷ []) × (rest ≡ es)

module _ {S : Type 0} (k : Kernel) where
  -- `DataIn` on a ring from which something has been read: when nine events wait, it returns -2 and
  -- changes nothing; else it returns 0 and the event is appended to those that wait. The ring stays
  -- valid.
  pub data_in-events_of :
      (data1 data2 : ℕ) (c : PowerCam S)
      → IsValid c
      → let (c', ret) = data_in k true data1 data2 c in
        IsValid c'
        × (if length (events_of c) == 9
            then (data_in k true data1 data2 c ≡ (c, negsuc 1))
            else (ret ≡ pos 0) × (events_of c' ≡ events_of c ++ (data1, data2) ∷ []))
  unfolding data_in
  data_in-events_of data1 data2 c (h0, h1, on) =
      let i = (c.bufr0 + 1) % 10 in
      let n = waiting c in
      let m = put (i * 2 + 1) data2 (put (i * 2) data1 c.buf_read) in
      let len = length-following (entry c.buf_read) c.bufr1 n in
      elim (Bool-cases (i == c.bufr1)) [
        | inl e ↦
            let nine : n ≡ 9 = ground arith in
            let t : (n == 9) ≡ true = ground arith in
            rw (advance_lem k c.bufr0 h0, e, len, t) ((h0, h1, on), refl)
        | inr e ↦
            let t : (n == 9) ≡ false = ground arith in
            let next : (i + 10 - c.bufr1) % 10 ≡ suc n = ground arith in
            let at : i ≡ (c.bufr1 + n + 1) % 10 = ground arith in
            let few : n < 10 = omega arith in
            let one : entries m c.bufr1 (suc n)
                ≡ entries c.buf_read c.bufr1 n ++ (data1, data2) ∷ [] =
              following-snoc (entry m) c.bufr1 n
              ∙ ap₂ (λ l x. l ++ x ∷ [])
                  (following-agree (entry m) (entry c.buf_read) c.bufr1 n i at few
                    (λ j. entry-put c.buf_read j i data1 data2))
                  (rw (sym at) (entry-put_self c.buf_read i data1 data2)) in
            rw (advance_lem k c.bufr0 h0, e, len, t)
              ((omega arith, h1, rw e refl), (refl, rw next one))
      ]

  -- `i2c_PowerCam_read` of an entry's two bytes: when an event waits, the oldest is copied to the
  -- application and taken off, and the call returns 2; when none waits after the wait, the call
  -- returns 2 and copies nothing. The ring stays valid.
  pub take_data-events_of :
      (c : PowerCam S)
      → IsValid c
      → (c' : PowerCam S) × (out : List ℕ) × (take_data k false 2 c ≡ some (c', pos 2, out))
        × IsValid c'
        × IsTaken (events_of c) out (events_of c')
  unfolding take_data
  take_data-events_of c (h0, h1, on) =
      let i = (c.bufr1 + 1) % 10 in
      elim (Bool-cases (c.bufr0 == c.bufr1)) [
        | inl e ↦
            let z : waiting c ≡ 0 = ground arith in
            rw (z, on, e)
              (record c { data_on = false }, [], refl, (h0, h1, rw e refl), (refl, rw z refl))
        | inr e ↦
            let n = (c.bufr0 + 10 - i) % 10 in
            let one : waiting c ≡ suc n = ground arith in
            let fits : ltb 20 (i * 2 + 2) ≡ false = ground arith in
            rw (one, on, e, advance_lem k c.bufr1 h1, fits)
              (
                record c { bufr1 = i; data_on = not (c.bufr0 == i) },
                c.buf_read (i * 2) ∷ c.buf_read (i * 2 + 1) ∷ [],
                refl,
                (h0, omega arith, refl),
                (refl, refl),
              )
      ]
