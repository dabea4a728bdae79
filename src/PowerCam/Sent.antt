-- ===== src/PowerCam/Sent.antt =====
-- The ring of commands as a bounded queue: `i2c_PowerCam_Send` appends, and the work sends the first.
-- A command as its row holds it.
use gest_aqua.Prelude.{Bool-cases, List, [], ap, ap₂, arith, drop, false, get_or, if◌then◌else◌}
use gest_aqua.Prelude.{inl, inr, leb, length, refl, subst, suc, sym, true, ℕ, ◌%◌, ◌++◌, ◌+◌}
use gest_aqua.Prelude.{◌-◌, ◌<◌, ◌==◌, ◌∙◌, ◌∷◌, ◌≡◌, ◌≢◌}
use gest_aqua.PowerCam.{I2c, Kernel, PowerCam, put}
use gest_aqua.PowerCam.Commands.{interrupt_task-write, put_self, write_command_lem}
use gest_aqua.PowerCam.Following.{advance_lem, following, following-agree, following-snoc}
use gest_aqua.PowerCam.Following.{length-following}
use gest_aqua.PowerCam.Ring.{advance, enqueue}
use gest_aqua.PowerCam.Tasks.{interrupt_task, write_command}

abbrev pub rows_of : List (List ℕ) → List (List ℕ)
rows_of [] = []
rows_of (b ∷ q) = (length b ∷ b) ∷ rows_of q

length-rows_of : (q : List (List ℕ)) → length (rows_of q) ≡ length q
length-rows_of [] = refl
length-rows_of (b ∷ q) = ap suc (length-rows_of q)

rows_of-snoc :
    (q : List (List ℕ)) (b : List ℕ) → rows_of (q ++ b ∷ []) ≡ rows_of q ++ (length b ∷ b) ∷ []
rows_of-snoc [] b = refl
rows_of-snoc (a ∷ q) b = ap (λ l. (length a ∷ a) ∷ l) (rows_of-snoc q b)

-- What the application and the driver's work do to the commands, in the order in which they do it.
pub data Move : Type 0 where
  queued : List ℕ → Move
  worked : ℕ → Move

module _ {S : Type 0} where
  -- The rows of the commands that are not sent yet, the oldest first.
  abbrev pub unsent : PowerCam S → ℕ
  unsent c = (c.bufw0 + 10 - c.bufw1) % 10

  -- The ring holds these commands, on a board that is there, and no interrupt is between them.
  abbrev pub Holds : PowerCam S → List (List ℕ) → Type 0
  Holds c q =
      (c.bufw0 < 10)
      × (c.bufw1 < 10)
      × (c.client ≡ true)
      × (c.mode ≡ 2)
      × (following c.buf_write c.bufw1 (unsent c) ≡ rows_of q)

  -- A queue of at most nine commands, and the bus that they go to.
  abbrev pub queue_move : I2c S → Move → List (List ℕ) × S → List (List ℕ) × S
  queue_move i2c (queued b) (q, s) =
      if length q == 9 then (q, s) else if leb (length b) 20 then (q ++ b ∷ [], s) else (q, s)
  queue_move i2c (worked garbage) ([], s) = ([], s)
  queue_move i2c (worked garbage) (b ∷ q, s) = (q, (i2c.master_send b s).0)

  abbrev pub queue_moves : I2c S → List Move → List (List ℕ) × S → List (List ℕ) × S
  queue_moves i2c [] qs = qs
  queue_moves i2c (m ∷ ms) qs = queue_moves i2c ms (queue_move i2c m qs)

  -- The driver's moves.
  abbrev pub ring_move : I2c S → Kernel → Move → PowerCam S → PowerCam S
  ring_move i2c k (queued b) c = (enqueue k b c).0
  ring_move i2c k (worked garbage) c = interrupt_task i2c k garbage c

  abbrev pub ring_moves : I2c S → Kernel → List Move → PowerCam S → PowerCam S
  ring_moves i2c k [] c = c
  ring_moves i2c k (m ∷ ms) c = ring_moves i2c k ms (ring_move i2c k m c)

  -- The ring holds the commands of the queue, and the two buses have got the same.
  abbrev pub Agrees : PowerCam S → List (List ℕ) × S → Type 0
  Agrees c (q, s) = Holds c q × (c.bus ≡ s)

module _ {S : Type 0} (i2c : I2c S) (k : Kernel) where
  length-Holds : (c : PowerCam S) (q : List (List ℕ)) → Holds c q → length q ≡ unsent c
  length-Holds c q (h0, h1, there, m, held) =
      sym (length-rows_of q)
      ∙ sym (ap length held)
      ∙ length-following c.buf_write c.bufw1 (unsent c)

  enqueue-Holds :
      (b : List ℕ) (c : PowerCam S) (q : List (List ℕ))
      → Holds c q
      → Agrees (enqueue k b c).0 (queue_move i2c (queued b) (q, c.bus))
  unfolding enqueue
  enqueue-Holds b c q (h0, h1, there, m, held) =
      let i = (c.bufw0 + 1) % 10 in
      let n = unsent c in
      let len = length-Holds c q (h0, h1, there, m, held) in
      let row = length b ∷ b in
      let rows = put i row c.buf_write in
      elim (Bool-cases (i == c.bufw1)) [
        | inl e ↦
            let t : (n == 9) ≡ true = ground arith in
            rw (advance_lem k c.bufw0 h0, e, len, t) ((h0, h1, there, m, held), refl)
        | inr e ↦
            let t : (n == 9) ≡ false = ground arith in
            let next : (i + 10 - c.bufw1) % 10 ≡ suc n = ground arith in
            let at : i ≡ (c.bufw1 + n + 1) % 10 = ground arith in
            let few : n < 10 = omega arith in
            let other : (j : ℕ) → j ≢ i → rows j ≡ c.buf_write j = λ j ne. ground arith in
            let one : following rows c.bufw1 (suc n) ≡ rows_of (q ++ b ∷ []) =
              following-snoc rows c.bufw1 n
              ∙ ap₂ (λ l x. l ++ x ∷ [])
                  (following-agree rows c.buf_write c.bufw1 n i at few other ∙ held)
                  (rw (sym at) (put_self i row c.buf_write))
              ∙ sym (rows_of-snoc q b) in
            elim (Bool-cases (leb (length b) 20)) [
              | inl f ↦
                  rw (advance_lem k c.bufw0 h0, e, len, t, f)
                    ((omega arith, h1, there, refl, rw next one), refl)
              | inr f ↦ rw (advance_lem k c.bufw0 h0, e, len, t, f) ((h0, h1, there, m, held), refl)
            ]
      ]

  interrupt_task-Holds :
      (garbage : ℕ) (c : PowerCam S) (q : List (List ℕ))
      → Holds c q
      → Agrees (interrupt_task i2c k garbage c) (queue_move i2c (worked garbage) (q, c.bus))
  unfolding write_command
  interrupt_task-Holds garbage c [] (h0, h1, there, m, held) =
      let len = length-Holds c [] (h0, h1, there, m, held) in
      let e : (c.bufw0 == c.bufw1) ≡ true = ground arith in
      rw (interrupt_task-write i2c k garbage c m, e) ((h0, h1, there, m, held), refl)
  interrupt_task-Holds garbage c (b ∷ q) (h0, h1, there, m, held) =
      let i = (c.bufw1 + 1) % 10 in
      let len = length-Holds c (b ∷ q) (h0, h1, there, m, held) in
      let e : (c.bufw0 == c.bufw1) ≡ false = ground arith in
      let n = (c.bufw0 + 10 - i) % 10 in
      let one : unsent c ≡ suc n = ground arith in
      let full : following c.buf_write c.bufw1 (suc n) ≡ rows_of (b ∷ q) =
        subst (λ t. following c.buf_write c.bufw1 t ≡ rows_of (b ∷ q)) one held in
      let at = advance_lem k c.bufw1 h1 in
      let row : c.buf_write (advance k c.bufw1) ≡ length b ∷ b =
        rw at (ap (λ l. get_or l 0 []) full) in
      let sent = write_command_lem i2c k b (record c { int_task = false }) there e row in
      rw (interrupt_task-write i2c k garbage c m, sent, at)
        ((h0, omega arith, there, m, ap (λ l. drop 1 l) full), refl)

  ring_moves-Agrees :
      (moves : List Move) (c : PowerCam S) (qs : List (List ℕ) × S)
      → Agrees c qs
      → Agrees (ring_moves i2c k moves c) (queue_moves i2c moves qs)
  ring_moves-Agrees [] c qs h = h
  ring_moves-Agrees (queued b ∷ ms) c (q, s) (held, same) =
      ring_moves-Agrees ms (enqueue k b c).0 (queue_move i2c (queued b) (q, s)) (
        subst (λ t. Agrees (enqueue k b c).0 (queue_move i2c (queued b) (q, t))) same
          (enqueue-Holds b c q held))
  ring_moves-Agrees (worked garbage ∷ ms) c (q, s) (held, same) =
      let c' = interrupt_task i2c k garbage c in
      ring_moves-Agrees ms c' (queue_move i2c (worked garbage) (q, s)) (
        subst (λ t. Agrees c' (queue_move i2c (worked garbage) (q, t))) same
          (interrupt_task-Holds garbage c q held))

  -- Commands are queued and works run, in any order and any number, on a ring that holds the commands
  -- of a queue, with indices of rows, the board there, the last mode that of writing and no interrupt
  -- between the moves. The ring and the bus do what a queue of at most nine commands and its bus do:
  -- a command of more than twenty bytes, or one that comes when nine wait, changes nothing; another is
  -- appended; a work sends the oldest, if there is one, once and whole.
  pub ring_moves-queue_moves :
      (moves : List Move) (c : PowerCam S) (q : List (List ℕ))
      → Holds c q
      → Agrees (ring_moves i2c k moves c) (queue_moves i2c moves (q, c.bus))
  ring_moves-queue_moves moves c q held = ring_moves-Agrees moves c (q, c.bus) (held, refl)
